-- ===== src/Core/Error/Laws.antt =====
-- The codes keep apart on the wire, and each has an HTTP error status.
use mert_blob_storage.Base.{◌≤◌, ◌≡◌, refl, ◌∙◌, sym, ap, Option, none, some, arith}
use mert_blob_storage.Base.{if◌then◌else◌}
use mert_blob_storage.Base.Text.{Text, codes, ◌==◌}
use mert_blob_storage.Core.Error.{
  AzureErrorCode, container_not_found, container_already_exists, container_being_deleted,
  blob_not_found, blob_already_exists, resource_not_found, invalid_block_id, invalid_block_list,
  block_count_exceeds_limit, authentication_failed, authorization_failure,
  authorization_permission_mismatch, authorization_resource_type_mismatch,
  authorization_protocol_mismatch, authorization_source_ip_mismatch,
  insufficient_account_permissions, invalid_authentication_info, invalid_header_value,
  invalid_query_parameter_value, invalid_range, missing_required_header,
  missing_required_query_parameter, md5_mismatch, invalid_md5, unsupported_header,
  invalid_xml_document, invalid_input, out_of_range_input, request_url_failed_to_parse,
  invalid_resource_name, unsupported_http_verb, feature_not_supported, internal_error,
}
use mert_blob_storage.Core.Error.{code_str, status_code}
use mathlib.Core.Option.{some-injective}

-- The code that a client reads off the wire string.
read_code : Text → Option AzureErrorCode
read_code t =
    if t == codes "ContainerNotFound"
    then some container_not_found
    else if t == codes "ContainerAlreadyExists"
    then some container_already_exists
    else if t == codes "ContainerBeingDeleted"
    then some container_being_deleted
    else if t == codes "BlobNotFound"
    then some blob_not_found
    else if t == codes "BlobAlreadyExists"
    then some blob_already_exists
    else if t == codes "ResourceNotFound"
    then some resource_not_found
    else if t == codes "InvalidBlockId"
    then some invalid_block_id
    else if t == codes "InvalidBlockList"
    then some invalid_block_list
    else if t == codes "BlockCountExceedsLimit"
    then some block_count_exceeds_limit
    else if t == codes "AuthenticationFailed"
    then some authentication_failed
    else if t == codes "AuthorizationFailure"
    then some authorization_failure
    else if t == codes "AuthorizationPermissionMismatch"
    then some authorization_permission_mismatch
    else if t == codes "AuthorizationResourceTypeMismatch"
    then some authorization_resource_type_mismatch
    else if t == codes "AuthorizationProtocolMismatch"
    then some authorization_protocol_mismatch
    else if t == codes "AuthorizationSourceIPMismatch"
    then some authorization_source_ip_mismatch
    else if t == codes "InsufficientAccountPermissions"
    then some insufficient_account_permissions
    else if t == codes "InvalidAuthenticationInfo"
    then some invalid_authentication_info
    else if t == codes "InvalidHeaderValue"
    then some invalid_header_value
    else if t == codes "InvalidQueryParameterValue"
    then some invalid_query_parameter_value
    else if t == codes "InvalidRange"
    then some invalid_range
    else if t == codes "MissingRequiredHeader"
    then some missing_required_header
    else if t == codes "MissingRequiredQueryParameter"
    then some missing_required_query_parameter
    else if t == codes "Md5Mismatch"
    then some md5_mismatch
    else if t == codes "InvalidMd5"
    then some invalid_md5
    else if t == codes "UnsupportedHeader"
    then some unsupported_header
    else if t == codes "InvalidXmlDocument"
    then some invalid_xml_document
    else if t == codes "InvalidInput"
    then some invalid_input
    else if t == codes "OutOfRangeInput"
    then some out_of_range_input
    else if t == codes "RequestUrlFailedToParse"
    then some request_url_failed_to_parse
    else if t == codes "InvalidResourceName"
    then some invalid_resource_name
    else if t == codes "UnsupportedHttpVerb"
    then some unsupported_http_verb
    else if t == codes "FeatureNotSupported"
    then some feature_not_supported
    else if t == codes "InternalError"
    then some internal_error
    else none

read_code-code_str : (c : AzureErrorCode) → read_code (code_str c) ≡ some c
unfolding read_code code_str ◌==◌
read_code-code_str container_not_found = refl
read_code-code_str container_already_exists = refl
read_code-code_str container_being_deleted = refl
read_code-code_str blob_not_found = refl
read_code-code_str blob_already_exists = refl
read_code-code_str resource_not_found = refl
read_code-code_str invalid_block_id = refl
read_code-code_str invalid_block_list = refl
read_code-code_str block_count_exceeds_limit = refl
read_code-code_str authentication_failed = refl
read_code-code_str authorization_failure = refl
read_code-code_str authorization_permission_mismatch = refl
read_code-code_str authorization_resource_type_mismatch = refl
read_code-code_str authorization_protocol_mismatch = refl
read_code-code_str authorization_source_ip_mismatch = refl
read_code-code_str insufficient_account_permissions = refl
read_code-code_str invalid_authentication_info = refl
read_code-code_str invalid_header_value = refl
read_code-code_str invalid_query_parameter_value = refl
read_code-code_str invalid_range = refl
read_code-code_str missing_required_header = refl
read_code-code_str missing_required_query_parameter = refl
read_code-code_str md5_mismatch = refl
read_code-code_str invalid_md5 = refl
read_code-code_str unsupported_header = refl
read_code-code_str invalid_xml_document = refl
read_code-code_str invalid_input = refl
read_code-code_str out_of_range_input = refl
read_code-code_str request_url_failed_to_parse = refl
read_code-code_str invalid_resource_name = refl
read_code-code_str unsupported_http_verb = refl
read_code-code_str feature_not_supported = refl
read_code-code_str internal_error = refl

-- Two codes with the same wire string are the same code.
pub code_str_injective : (c d : AzureErrorCode) → code_str c ≡ code_str d → c ≡ d
code_str_injective c d h =
    some-injective c d (sym (read_code-code_str c) ∙ ap read_code h ∙ read_code-code_str d)

-- Every code has a status from 400 up to 501.
pub status_code_bounds : (c : AzureErrorCode) → (400 ≤ status_code c) × (status_code c ≤ 501)
unfolding status_code
status_code_bounds container_not_found = omega arith
status_code_bounds container_already_exists = omega arith
status_code_bounds container_being_deleted = omega arith
status_code_bounds blob_not_found = omega arith
status_code_bounds blob_already_exists = omega arith
status_code_bounds resource_not_found = omega arith
status_code_bounds invalid_block_id = omega arith
status_code_bounds invalid_block_list = omega arith
status_code_bounds block_count_exceeds_limit = omega arith
status_code_bounds authentication_failed = omega arith
status_code_bounds authorization_failure = omega arith
status_code_bounds authorization_permission_mismatch = omega arith
status_code_bounds authorization_resource_type_mismatch = omega arith
status_code_bounds authorization_protocol_mismatch = omega arith
status_code_bounds authorization_source_ip_mismatch = omega arith
status_code_bounds insufficient_account_permissions = omega arith
status_code_bounds invalid_authentication_info = omega arith
status_code_bounds invalid_header_value = omega arith
status_code_bounds invalid_query_parameter_value = omega arith
status_code_bounds invalid_range = omega arith
status_code_bounds missing_required_header = omega arith
status_code_bounds missing_required_query_parameter = omega arith
status_code_bounds md5_mismatch = omega arith
status_code_bounds invalid_md5 = omega arith
status_code_bounds unsupported_header = omega arith
status_code_bounds invalid_xml_document = omega arith
status_code_bounds invalid_input = omega arith
status_code_bounds out_of_range_input = omega arith
status_code_bounds request_url_failed_to_parse = omega arith
status_code_bounds invalid_resource_name = omega arith
status_code_bounds unsupported_http_verb = omega arith
status_code_bounds feature_not_supported = omega arith
status_code_bounds internal_error = omega arith
