-- ===== src/Tests/SampleServer.antt =====
-- A concrete server for tests and examples: header values of any text, paths whose names hold no
-- percent sign, and a reader of XML that finds one block.
use mert_blob_storage.Base.{false, none, some, true, Option, [], ◌∷◌}
use mert_blob_storage.Base.Text.{Text, codes, split_once}
use mert_blob_storage.Storage.Exec.{ok}
use mert_blob_storage.Auth.Externals.{Unicode}
use mert_blob_storage.Xml.BlockList.{XmlReader, start_tag, text_event, other_event, eof}
use mert_blob_storage.Api.Auth.{split_path}
use mert_blob_storage.Api.Http.{
  HttpLibrary, Request, Response, RouteMatch, account_route, container_route, blob_route, no_route,
  get, put,
}
use mert_blob_storage.Api.State.{Libraries}
use mert_blob_storage.Tests.Sample.{sample, sample_crypto}

abbrev pub sample_unicode : Unicode
sample_unicode = record { to_lowercase = λ t. t; trim = λ t. t }

abbrev pub not_found : Response
not_found = record { status = 404; headers = []; body = [] }

abbrev pub route_of : Option Text × Option Text × Option Text → RouteMatch
route_of (some a, some c, some b) = blob_route a c b
route_of (some a, some c, none) = container_route a c
route_of (some a, none, b) = account_route a
route_of (none, c, b) = no_route not_found

-- a path and a query at the first question mark
abbrev pub cut : Text → Option (Text × Text) → Text × Option Text
cut text none = (text, none)
cut text (some (path, query)) = (path, some query)

abbrev pub sample_http : HttpLibrary
sample_http = record {
  to_str = λ t. some t;
  from_str = λ t. some t;
  name_from_bytes = λ t. some t;
  url_decode = λ t. some t;
  to_bytes = λ n body. some [];
  route_match = λ path. route_of (split_path path);
  method_not_allowed = record { status = 405; headers = []; body = [] };
  path_and_query = λ text. some (cut text (split_once b'?' text));
  from_parts = λ req target. true;
  is_ip_addr = λ host. false;
  request_id = codes "r1";
  error_id = codes "e1";
}

abbrev pub sample_xml : XmlReader
sample_xml = record {
  read_events = λ body.
      other_event
      ∷ start_tag (codes "BlockList")
      ∷ start_tag (codes "Latest")
      ∷ text_event (ok (codes "QQ=="))
      ∷ other_event
      ∷ other_event
      ∷ eof
      ∷ [];
}

abbrev pub sample_libraries : Libraries
sample_libraries = record {
  externals = sample;
  crypto = sample_crypto;
  unicode = sample_unicode;
  http = sample_http;
  xml = sample_xml;
}

abbrev pub get_request : Request
get_request = record {
  method = get;
  path = codes "/acct/c/b";
  query = none;
  uri_host = none;
  headers = [];
  body = [];
  signed_path = none;
}

abbrev pub put_request : Request
put_request = record get_request { method = put; body = ok (codes "hi") ∷ [] }
