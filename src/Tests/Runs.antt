-- ===== src/Tests/Runs.antt =====
-- What the runs of the model compute with: every function of the components.
use mert_blob_storage.Api
use mert_blob_storage.Auth
use mert_blob_storage.Base
use mert_blob_storage.Core
use mert_blob_storage.Storage
use mert_blob_storage.Xml

unfoldable pub runs_base : Unit {0}
unfolding Base.Lists.find Base.Lists.select Base.Lists.remove Base.Lists.update Base.Lists.exists
    Base.Lists.insert_by Base.Lists.sort_by Base.Lists.upsert Base.Text.◌==◌ Base.Text.lt
    Base.Text.strip_prefix Base.Text.is_empty Base.Text.split_once Base.Text.contains
    Base.Text.eq_ignore_ascii_case Base.Text.digits_from Base.Text.to_string Base.Text.pad
    Base.Numbers.scan Base.Numbers.scan_digits Base.Numbers.parse_unsigned Core.Error.code_str
    Core.Error.status_code Core.Error.default_message Core.Error.azure_error Core.Error.with_message
    Core.Model.as_header_value Core.Model.as_db_str Core.Model.from_db_str
    Core.Model.from_header_value Core.Model.allows_blob_read Core.Model.allows_container_listing
    Core.Model.as_str Core.Model.parse Core.Time.format_http_date Core.Time.upper_hex
    Core.Time.lower_hex Core.Time.generate_etag
runs_base = tt

unfoldable pub runs_store : Unit {0}
unfolding Storage.Exec.◌>>=◌ Storage.Exec.map_err Storage.Exec.ignore Storage.Exec.or_default
    Storage.Exec.call Storage.Exec.fetch Storage.Exec.try_execute Storage.Exec.execute
    Storage.Exec.transaction Storage.PathLayout.join Storage.PathLayout.hash_hex
    Storage.PathLayout.blob_rel_path Storage.PathLayout.staged_block_rel_path
    Storage.PathLayout.account_root Storage.PathLayout.container_root Storage.FsIo.read_file
    Storage.FsIo.erase_file Storage.FsIo.store_file Storage.FsIo.sys Storage.FsIo.create_file
    Storage.FsIo.append_file Storage.FsIo.rename Storage.FsIo.open_file
    Storage.FsIo.remove_file_if_exists Storage.FsIo.fsync_dir Storage.FsIo.without_letters
    Storage.FsIo.write_chunks Storage.FsIo.read_buffer Storage.FsIo.copy_part
    Storage.FsIo.copy_parts Storage.FsIo.uuid_like Storage.FsIo.unique_tmp_path Storage.FsIo.publish
    Storage.FsIo.write_stream_atomic Storage.FsIo.concatenate_files_atomic Storage.Db.is_account
    Storage.Db.is_container Storage.Db.is_blob Storage.Db.is_blob_in Storage.Db.is_staged_of
    Storage.Db.is_staged Storage.Db.is_staged_in Storage.Db.is_committed_of
    Storage.Db.is_committed_in Storage.MetadataDb.Accounts.account_keys
    Storage.MetadataDb.Accounts.ensure_account Storage.MetadataDb.Blobs.new_blob
    Storage.MetadataDb.Blobs.write_properties Storage.MetadataDb.Blobs.get_blob
    Storage.MetadataDb.Blobs.require_blob Storage.MetadataDb.Blobs.upsert_blob_single_shot
    Storage.MetadataDb.Blobs.set_blob_properties Storage.MetadataDb.Blobs.set_blob_metadata
    Storage.MetadataDb.Blobs.delete_blob Storage.MetadataDb.Blocks.get_staged_block
    Storage.MetadataDb.Blocks.by_index Storage.MetadataDb.Blocks.by_staged_at
    Storage.MetadataDb.Blocks.select_committed Storage.MetadataDb.Blocks.select_uncommitted
    Storage.MetadataDb.Blocks.get_committed_blocks Storage.MetadataDb.Blocks.get_uncommitted_blocks
    Storage.MetadataDb.Blocks.stage_block Storage.MetadataDb.Blocks.insert_blocks
    Storage.MetadataDb.Blocks.commit_tx Storage.MetadataDb.Blocks.commit_block_list
    Storage.MetadataDb.Containers.marker Storage.MetadataDb.Containers.on_insert_error
    Storage.MetadataDb.Containers.create_container Storage.MetadataDb.Containers.get_container
    Storage.MetadataDb.Containers.require_container
    Storage.MetadataDb.Containers.delete_container_tx Storage.MetadataDb.Containers.delete_container
    Storage.MetadataDb.Containers.set_container_metadata
    Storage.MetadataDb.Containers.set_container_acl Storage.MetadataDb.Listing.by_container_name
    Storage.MetadataDb.Listing.by_blob_name Storage.MetadataDb.Listing.page
    Storage.MetadataDb.Listing.lists_container Storage.MetadataDb.Listing.lists_blob
    Storage.MetadataDb.Listing.query_containers Storage.MetadataDb.Listing.query_blobs
    Storage.MetadataDb.Listing.list_containers Storage.MetadataDb.Listing.list_blobs
    Storage.MetadataDb.Rows.parse_metadata Storage.MetadataDb.Rows.dump_metadata
    Storage.MetadataDb.Rows.generate_etag Storage.MetadataDb.Rows.now_rfc1123
    Storage.MetadataDb.Rows.now_iso Storage.MetadataDb.Rows.message
    Storage.MetadataDb.Rows.to_internal Storage.MetadataDb.Rows.or_internal
    Storage.MetadataDb.Rows.row_to_container Storage.MetadataDb.Rows.row_to_blob
    Storage.MetadataDb.Rows.row_to_staged Storage.MetadataDb.Rows.committed_to_block
    Storage.MetadataDb.Rows.staged_to_block Storage.MetadataDb.Statements.rekey
    Storage.MetadataDb.Statements.upsert_account Storage.MetadataDb.Statements.has_account
    Storage.MetadataDb.Statements.has_container Storage.MetadataDb.Statements.has_blob_in
    Storage.MetadataDb.Statements.insert_container Storage.MetadataDb.Statements.select_container
    Storage.MetadataDb.Statements.update_container
    Storage.MetadataDb.Statements.delete_container_row
    Storage.MetadataDb.Statements.delete_committed_in Storage.MetadataDb.Statements.delete_staged_in
    Storage.MetadataDb.Statements.delete_blobs_in Storage.MetadataDb.Statements.select_blobs_in
    Storage.MetadataDb.Statements.is_live Storage.MetadataDb.Statements.select_blob
    Storage.MetadataDb.Statements.overwrite_blob Storage.MetadataDb.Statements.upsert_blob
    Storage.MetadataDb.Statements.update_blob Storage.MetadataDb.Statements.delete_blob_row
    Storage.MetadataDb.Statements.delete_committed_of Storage.MetadataDb.Statements.delete_staged_of
    Storage.MetadataDb.Statements.restage Storage.MetadataDb.Statements.upsert_staged
    Storage.MetadataDb.Statements.select_staged Storage.MetadataDb.Statements.is_committed_at
    Storage.MetadataDb.Statements.insert_committed
runs_store = tt

unfoldable pub runs_backend : Unit {0}
unfolding Storage.FsBackend.Blobs.md5_differs Storage.FsBackend.Blobs.resolve_range
    Storage.FsBackend.Blobs.take_range Storage.FsBackend.Blobs.seek_range
    Storage.FsBackend.Blobs.check_md5 Storage.FsBackend.Blobs.put_blob
    Storage.FsBackend.Blobs.get_blob Storage.FsBackend.Blobs.get_blob_properties
    Storage.FsBackend.Blobs.set_blob_properties Storage.FsBackend.Blobs.set_blob_metadata
    Storage.FsBackend.Blobs.delete_blob Storage.FsBackend.Blocks.committed_size
    Storage.FsBackend.Blocks.any_empty Storage.FsBackend.Blocks.to_committed_block
    Storage.FsBackend.Blocks.resolve_block Storage.FsBackend.Blocks.resolve_blocks
    Storage.FsBackend.Blocks.remove_parts Storage.FsBackend.Blocks.put_block
    Storage.FsBackend.Blocks.assemble Storage.FsBackend.Blocks.put_block_list
    Storage.FsBackend.Blocks.get_block_list Storage.FsBackend.Common.slashes
    Storage.FsBackend.Common.container_rel Storage.FsBackend.Common.blob_paths
    Storage.FsBackend.Common.staged_block_path Storage.FsBackend.Common.tmp_dir
    Storage.FsBackend.Common.container_row_to_props Storage.FsBackend.Common.blob_row_to_props
    Storage.FsBackend.Common.md5_hex_to_base64 Storage.FsBackend.Containers.erase_dir
    Storage.FsBackend.Containers.find_text Storage.FsBackend.Containers.contains_text
    Storage.FsBackend.Containers.is_char_boundary Storage.FsBackend.Containers.group_prefix
    Storage.FsBackend.Containers.group_rows Storage.FsBackend.Containers.create_container
    Storage.FsBackend.Containers.remove_blob_files Storage.FsBackend.Containers.delete_container
    Storage.FsBackend.Containers.get_container_properties
    Storage.FsBackend.Containers.set_container_metadata
    Storage.FsBackend.Containers.set_container_acl Storage.FsBackend.Containers.list_containers
    Storage.FsBackend.Containers.list_blobs
runs_backend = tt

unfoldable pub runs_api : Unit {0}
unfolding Api.AccountResolve.resolve Api.AccountResolve.first_segment Api.AccountResolve.rsplit_once
    Api.AccountResolve.all_digits Api.AccountResolve.without_port Api.AccountResolve.host_label
    Api.AccountResolve.rewritten_path Api.AccountResolve.new_path_and_query
    Api.AccountResolve.host_of Api.AccountResolve.is_known Api.AccountResolve.with_target
    Api.AccountResolve.rewritten Api.AccountResolve.resolved_request
    Api.AccountResolve.account_resolve_middleware Api.Auth.trim_start_slashes Api.Auth.split_path
    Api.Auth.required_permission Api.Auth.map_auth_error Api.Auth.signed_blob Api.Auth.verify_sas
    Api.Auth.anonymous_allowed Api.Auth.verify_anonymous Api.ErrorResponse.status_or_500
    Api.ErrorResponse.azure_error_response Api.ErrorResponse.into_response
    Api.Handlers.Account.list_containers Api.Handlers.BlobReads.content_range
    Api.Handlers.BlobReads.get_metadata Api.Handlers.BlobReads.get_block_list
    Api.Handlers.BlobReads.head_blob Api.Handlers.BlobReads.range_of
    Api.Handlers.BlobReads.range_headers Api.Handlers.BlobReads.get_whole
    Api.Handlers.BlobReads.blob_get Api.Handlers.Blobs.with_md5 Api.Handlers.Blobs.put_block
    Api.Handlers.Blobs.put_block_list Api.Handlers.Blobs.put_properties
    Api.Handlers.Blobs.put_metadata Api.Handlers.Blobs.with_md5_of Api.Handlers.Blobs.put_whole
    Api.Handlers.Blobs.blob_put Api.Handlers.Blobs.blob_delete Api.Handlers.Common.max_results_of
    Api.Handlers.Common.header_opt Api.Handlers.Common.params_of Api.Handlers.Common.version_headers
    Api.Handlers.Containers.insert_level Api.Handlers.Containers.put_metadata
    Api.Handlers.Containers.put_acl Api.Handlers.Containers.put_container
    Api.Handlers.Containers.container_put Api.Handlers.Containers.container_delete
    Api.Handlers.Containers.get_list Api.Handlers.Containers.get_acl
    Api.Handlers.Containers.get_container Api.Handlers.Containers.container_get
    Api.Helpers.body_to_stream Api.Helpers.insert_metadata Api.Helpers.add_metadata
    Api.Helpers.metadata_of Api.Helpers.extract_metadata Api.Helpers.apply_metadata_headers
    Api.Helpers.insert_if_valid Api.Helpers.insert_if_some Api.Helpers.apply_blob_property_headers
    Api.Helpers.range_end Api.Helpers.range_bounds Api.Helpers.single_range Api.Helpers.parse_range
    Api.Http.method_str Api.Http.get_header Api.Http.contains_key Api.Http.insert_header
    Api.Http.or_fail Api.Http.unwrap Api.Middleware.header_str Api.Middleware.ms_headers
    Api.Middleware.shared_key_request Api.Middleware.verify_shared_key Api.Middleware.verify_bearer
    Api.Middleware.authenticate Api.Middleware.default_header Api.Middleware.finalize_response
    Api.Middleware.auth_middleware Api.Query.split Api.Query.decode_or_same Api.Query.decode_pairs
    Api.Query.parse_query Api.Query.get_param Api.Router.healthz Api.Router.readyz
    Api.Router.serve_account Api.Router.serve_container Api.Router.serve_blob Api.Router.serve_match
    Api.Router.api_routes Api.Router.api_service Api.Router.build_router Auth.Bearer.get_in
    Auth.Bearer.usable_key Auth.Bearer.collect_keys Auth.Bearer.fetch_keys Auth.Bearer.cached_key
    Auth.Bearer.get_key Auth.Bearer.validate_token Auth.Sas.get Auth.Sas.parse_sas_query
    Auth.Sas.canonicalized_resource Auth.Sas.join_lines Auth.Sas.lines_to_sign
    Auth.Sas.string_to_sign Auth.Sas.hmac_sign Auth.Sas.signs Auth.Sas.signs_too
    Auth.Sas.verify_signature Auth.Sas.check_expiry Auth.Sas.check_start
    Auth.Sas.check_validity_window Auth.Sas.has_permission Auth.Sas.resource_scope_matches
    Auth.SharedKey.header_lines Auth.SharedKey.join_commas Auth.SharedKey.push_entry
    Auth.SharedKey.group_lines Auth.SharedKey.canonicalized_headers Auth.SharedKey.group_params
    Auth.SharedKey.canonicalized_resource Auth.SharedKey.parts Auth.SharedKey.string_to_sign
    Auth.SharedKey.differences Auth.SharedKey.constant_time_eq Auth.SharedKey.provides
    Auth.SharedKey.provides_too Auth.SharedKey.verify Auth.Types.sas_char Xml.BlockList.kind_of
    Xml.BlockList.read_blocks Xml.BlockList.parse_block_list_request Xml.BlockList.render_blocks
    Xml.BlockList.render_block_list_response Xml.ErrorXml.render_error Xml.Escape.escape_char
    Xml.Escape.xml_escape Xml.Listings.optional Xml.Listings.render_metadata
    Xml.Listings.public_access_element Xml.Listings.render_container Xml.Listings.render_containers
    Xml.Listings.render_list_containers Xml.Listings.render_blob Xml.Listings.render_blobs
    Xml.Listings.render_prefixes Xml.Listings.render_list_blobs
runs_api = tt
