-- ===== src/Error.antt =====
-- src/errors.rs: the error type of every handler, and its RFC 7807 response. The cause of an
-- internal error (`anyhow::Error`) is only logged, and is left out.
use egras.Prelude.{ℕ, String, Option, none, some, List}
use Prim.Native.String.{◌++◌}

pub data ErrorSlug : Type 0 where
  validation_invalid_request auth_unauthenticated auth_invalid_credentials : ErrorSlug
  permission_denied requires_user_credentials resource_not_found resource_conflict : ErrorSlug
  user_no_organisation feature_unknown feature_not_self_service : ErrorSlug
  feature_invalid_value internal_error : ErrorSlug

pub data AppError : Type 0 where
  validation : List (String × List String) → AppError
  unauthenticated : String → AppError
  invalid_credentials : AppError
  permission_denied : String → AppError
  requires_user_credentials : AppError
  not_found : String → AppError
  conflict : String → AppError
  user_no_organisation : AppError
  feature_unknown : AppError
  feature_not_self_service : AppError
  feature_invalid_value : String → AppError
  internal : AppError

pub as_str : ErrorSlug → String
as_str validation_invalid_request = "validation.invalid_request"
as_str auth_unauthenticated = "auth.unauthenticated"
as_str auth_invalid_credentials = "auth.invalid_credentials"
as_str ErrorSlug.permission_denied = "permission.denied"
as_str ErrorSlug.requires_user_credentials = "auth.requires_user_credentials"
as_str resource_not_found = "resource.not_found"
as_str resource_conflict = "resource.conflict"
as_str ErrorSlug.user_no_organisation = "user.no_organisation"
as_str ErrorSlug.feature_unknown = "feature.unknown"
as_str ErrorSlug.feature_not_self_service = "feature.not_self_service"
as_str ErrorSlug.feature_invalid_value = "feature.invalid_value"
as_str internal_error = "internal.error"

unfoldable pub slug : AppError → ErrorSlug
slug (validation _) = validation_invalid_request
slug (unauthenticated _) = auth_unauthenticated
slug invalid_credentials = auth_invalid_credentials
slug (AppError.permission_denied _) = ErrorSlug.permission_denied
slug AppError.requires_user_credentials = ErrorSlug.requires_user_credentials
slug (not_found _) = resource_not_found
slug (conflict _) = resource_conflict
slug AppError.user_no_organisation = ErrorSlug.user_no_organisation
slug AppError.feature_unknown = ErrorSlug.feature_unknown
slug AppError.feature_not_self_service = ErrorSlug.feature_not_self_service
slug (AppError.feature_invalid_value _) = ErrorSlug.feature_invalid_value
slug internal = internal_error

unfoldable pub http_status : AppError → ℕ
http_status (validation _) = 400
http_status (unauthenticated _) = 401
http_status invalid_credentials = 401
http_status (AppError.permission_denied _) = 403
http_status AppError.requires_user_credentials = 403
http_status (not_found _) = 404
http_status (conflict _) = 409
http_status AppError.user_no_organisation = 403
http_status AppError.feature_unknown = 404
http_status AppError.feature_not_self_service = 403
http_status (AppError.feature_invalid_value _) = 400
http_status internal = 500

title_of_slug : ErrorSlug → String
title_of_slug validation_invalid_request = "Invalid request"
title_of_slug auth_unauthenticated = "Unauthenticated"
title_of_slug auth_invalid_credentials = "Invalid credentials"
title_of_slug ErrorSlug.permission_denied = "Permission denied"
title_of_slug ErrorSlug.requires_user_credentials = "Requires user credentials"
title_of_slug resource_not_found = "Not found"
title_of_slug resource_conflict = "Conflict"
title_of_slug ErrorSlug.user_no_organisation = "User has no organisation"
title_of_slug ErrorSlug.feature_unknown = "Unknown feature"
title_of_slug ErrorSlug.feature_not_self_service = "Feature not self-service"
title_of_slug ErrorSlug.feature_invalid_value = "Invalid feature value"
title_of_slug internal_error = "Internal error"

pub title : AppError → String
unfolding title_of_slug
title e = title_of_slug (slug e)

pub detail : AppError → String
detail (validation _) = "One or more fields failed validation."
detail (unauthenticated reason) = "Authentication required (" ++ (reason ++ ").")
detail invalid_credentials = "Invalid username or password."
detail (AppError.permission_denied code) = "missing permission: " ++ code
detail AppError.requires_user_credentials =
    "this endpoint requires user credentials and cannot be called with an API key"
detail (not_found resource) = resource ++ " was not found."
detail (conflict reason) = reason
detail AppError.user_no_organisation = "The user does not belong to any organisation."
detail AppError.feature_unknown = "No feature with the given slug exists."
detail AppError.feature_not_self_service =
    "This flag is not self-service; operator privileges required."
detail (AppError.feature_invalid_value reason) =
    "Value does not match declared type: " ++ (reason ++ ".")
detail internal = "An internal error occurred."

pub record ErrorBody : Type 0 where
  pub type_uri : String
  pub title : String
  pub status : ℕ
  pub detail : String
  pub instance_uri : Option String
  pub request_id : Option String
  pub errors : Option (List (String × List String))

-- The status, the content type and the body.
pub record Response : Type 0 where
  pub status : ℕ
  pub content_type : String
  pub body : ErrorBody

field_errors : AppError → Option (List (String × List String))
field_errors (validation errors) = some errors
field_errors _ = none

pub into_response : AppError → Response
unfolding title detail field_errors
into_response e = record {
  status = http_status e;
  content_type = "application/problem+json";
  body = record {
    type_uri = "https://egras.dev/errors/" ++ as_str (slug e);
    title = title e;
    status = http_status e;
    detail = detail e;
    instance_uri = none;
    request_id = none;
    errors = field_errors e;
  };
}
