-- ===== src/Core/Error.antt =====
-- crates/blobstore-core/src/error.rs: the catalog of error codes, and the error value that every
-- fallible operation returns.
pub mod Laws
use mert_blob_storage.Base.{ℕ}
use mert_blob_storage.Base.Text.{Text, codes}

pub data AzureErrorCode : Type 0 where
  container_not_found : AzureErrorCode
  container_already_exists : AzureErrorCode
  container_being_deleted : AzureErrorCode
  blob_not_found : AzureErrorCode
  blob_already_exists : AzureErrorCode
  resource_not_found : AzureErrorCode
  invalid_block_id : AzureErrorCode
  invalid_block_list : AzureErrorCode
  block_count_exceeds_limit : AzureErrorCode
  authentication_failed : AzureErrorCode
  authorization_failure : AzureErrorCode
  authorization_permission_mismatch : AzureErrorCode
  authorization_resource_type_mismatch : AzureErrorCode
  authorization_protocol_mismatch : AzureErrorCode
  authorization_source_ip_mismatch : AzureErrorCode
  insufficient_account_permissions : AzureErrorCode
  invalid_authentication_info : AzureErrorCode
  invalid_header_value : AzureErrorCode
  invalid_query_parameter_value : AzureErrorCode
  invalid_range : AzureErrorCode
  missing_required_header : AzureErrorCode
  missing_required_query_parameter : AzureErrorCode
  md5_mismatch : AzureErrorCode
  invalid_md5 : AzureErrorCode
  unsupported_header : AzureErrorCode
  invalid_xml_document : AzureErrorCode
  invalid_input : AzureErrorCode
  out_of_range_input : AzureErrorCode
  request_url_failed_to_parse : AzureErrorCode
  invalid_resource_name : AzureErrorCode
  unsupported_http_verb : AzureErrorCode
  feature_not_supported : AzureErrorCode
  internal_error : AzureErrorCode

-- the wire string of `<Code>` and `x-ms-error-code`
unfoldable pub code_str : AzureErrorCode → Text
code_str container_not_found = codes "ContainerNotFound"
code_str container_already_exists = codes "ContainerAlreadyExists"
code_str container_being_deleted = codes "ContainerBeingDeleted"
code_str blob_not_found = codes "BlobNotFound"
code_str blob_already_exists = codes "BlobAlreadyExists"
code_str resource_not_found = codes "ResourceNotFound"
code_str invalid_block_id = codes "InvalidBlockId"
code_str invalid_block_list = codes "InvalidBlockList"
code_str block_count_exceeds_limit = codes "BlockCountExceedsLimit"
code_str authentication_failed = codes "AuthenticationFailed"
code_str authorization_failure = codes "AuthorizationFailure"
code_str authorization_permission_mismatch = codes "AuthorizationPermissionMismatch"
code_str authorization_resource_type_mismatch = codes "AuthorizationResourceTypeMismatch"
code_str authorization_protocol_mismatch = codes "AuthorizationProtocolMismatch"
code_str authorization_source_ip_mismatch = codes "AuthorizationSourceIPMismatch"
code_str insufficient_account_permissions = codes "InsufficientAccountPermissions"
code_str invalid_authentication_info = codes "InvalidAuthenticationInfo"
code_str invalid_header_value = codes "InvalidHeaderValue"
code_str invalid_query_parameter_value = codes "InvalidQueryParameterValue"
code_str invalid_range = codes "InvalidRange"
code_str missing_required_header = codes "MissingRequiredHeader"
code_str missing_required_query_parameter = codes "MissingRequiredQueryParameter"
code_str md5_mismatch = codes "Md5Mismatch"
code_str invalid_md5 = codes "InvalidMd5"
code_str unsupported_header = codes "UnsupportedHeader"
code_str invalid_xml_document = codes "InvalidXmlDocument"
code_str invalid_input = codes "InvalidInput"
code_str out_of_range_input = codes "OutOfRangeInput"
code_str request_url_failed_to_parse = codes "RequestUrlFailedToParse"
code_str invalid_resource_name = codes "InvalidResourceName"
code_str unsupported_http_verb = codes "UnsupportedHttpVerb"
code_str feature_not_supported = codes "FeatureNotSupported"
code_str internal_error = codes "InternalError"

unfoldable pub status_code : AzureErrorCode → ℕ
status_code container_not_found = 404
status_code container_already_exists = 409
status_code container_being_deleted = 409
status_code blob_not_found = 404
status_code blob_already_exists = 409
status_code resource_not_found = 404
status_code invalid_block_id = 400
status_code invalid_block_list = 400
status_code block_count_exceeds_limit = 400
status_code authentication_failed = 401
status_code authorization_failure = 403
status_code authorization_permission_mismatch = 403
status_code authorization_resource_type_mismatch = 403
status_code authorization_protocol_mismatch = 403
status_code authorization_source_ip_mismatch = 403
status_code insufficient_account_permissions = 403
status_code invalid_authentication_info = 401
status_code invalid_header_value = 400
status_code invalid_query_parameter_value = 400
status_code invalid_range = 416
status_code missing_required_header = 400
status_code missing_required_query_parameter = 400
status_code md5_mismatch = 400
status_code invalid_md5 = 400
status_code unsupported_header = 400
status_code invalid_xml_document = 400
status_code invalid_input = 400
status_code out_of_range_input = 400
status_code request_url_failed_to_parse = 400
status_code invalid_resource_name = 400
status_code unsupported_http_verb = 405
status_code feature_not_supported = 501
status_code internal_error = 500

unfoldable pub default_message : AzureErrorCode → Text
default_message container_not_found = codes "The specified container does not exist."
default_message container_already_exists = codes "The specified container already exists."
default_message container_being_deleted = codes "The specified container is being deleted."
default_message blob_not_found = codes "The specified blob does not exist."
default_message blob_already_exists = codes "The specified blob already exists."
default_message resource_not_found = codes "The specified resource does not exist."
default_message invalid_block_id = codes "The specified block ID is invalid."
default_message invalid_block_list = codes "The specified block list is invalid."
default_message block_count_exceeds_limit =
    codes "The committed block count cannot exceed the maximum limit."
default_message authentication_failed = codes "Server failed to authenticate the request."
default_message authorization_failure =
    codes "This request is not authorized to perform this operation."
default_message authorization_permission_mismatch =
    codes "This request is not authorized to perform this operation using this permission."
default_message authorization_resource_type_mismatch =
    codes "This request is not authorized to perform this operation using this resource type."
default_message authorization_protocol_mismatch =
    codes
      "The request is not authorized because the protocol does not match the one specified in the signature."
default_message authorization_source_ip_mismatch =
    codes "The request is not authorized from the source IP address."
default_message insufficient_account_permissions =
    codes
      "The account being accessed does not have sufficient permissions to execute this operation."
default_message invalid_authentication_info =
    codes "The authentication information was not provided in the correct format."
default_message invalid_header_value =
    codes "The value provided for one of the HTTP headers was not in the correct format."
default_message invalid_query_parameter_value =
    codes "An invalid value was specified for one of the query parameters."
default_message invalid_range =
    codes "The range specified is invalid for the current size of the resource."
default_message missing_required_header = codes "A required HTTP header was not specified."
default_message missing_required_query_parameter =
    codes "A required query parameter was not specified."
default_message md5_mismatch =
    codes
      "The MD5 value specified in the request did not match the MD5 value calculated by the server."
default_message invalid_md5 = codes "The MD5 value specified in the request is invalid."
default_message unsupported_header =
    codes "One of the HTTP headers specified in the request is not supported."
default_message invalid_xml_document = codes "The specified XML is not syntactically valid."
default_message invalid_input = codes "One of the request inputs is not valid."
default_message out_of_range_input = codes "One of the request inputs is out of range."
default_message request_url_failed_to_parse = codes "The url in the request could not be parsed."
default_message invalid_resource_name =
    codes "The specified resource name contains invalid characters."
default_message unsupported_http_verb =
    codes "The resource doesn't support the specified HTTP verb."
default_message feature_not_supported = codes "This feature is not supported by this server."
default_message internal_error = codes "The server encountered an internal error. Please try again."

pub record AzureError : Type 0 where
  pub code : AzureErrorCode
  pub message : Text

-- `AzureError::new`, which is also the conversion from a code
unfoldable pub azure_error : AzureErrorCode → AzureError
azure_error c = record { code = c; message = default_message c }

unfoldable pub with_message : AzureErrorCode → Text → AzureError
with_message c m = record { code = c; message = m }
