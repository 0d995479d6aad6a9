-- ===== src/Xml/Listings.antt =====
-- crates/blobstore-xml/src/list_containers.rs and list_blobs.rs: the bodies of the two listings.
use mathlib.Core.Option
use mert_blob_storage.Base.{ℕ, Option, none, some, List, [], ◌∷◌, ◌++◌}
use mert_blob_storage.Base.Text.{Text, codes, to_string}
use mert_blob_storage.Core.Model.{as_header_value, as_str}
use mert_blob_storage.Storage.Externals.{Metadata}
use mert_blob_storage.Storage.Types.{ContainerProps, ContainerListPage, BlobListEntry, BlobListPage}
use mert_blob_storage.Xml.Escape.{xml_escape, element}
use mert_blob_storage.Xml.BlockList.{declaration}

-- ` name="value"`
abbrev pub attribute : Text → Text → Text
attribute name value = b' ' ∷ (name ++ (b'=' ∷ (b'"' ∷ (xml_escape value ++ (b'"' ∷ [])))))

-- an element that is left out where there is no value
unfoldable pub optional : Text → Option Text → Text
optional name none = []
optional name (some value) = element name (xml_escape value)

-- the loop over the metadata
unfoldable pub render_metadata : Metadata → Text
render_metadata [] = []
render_metadata ((k, v) ∷ metadata) =
    element (xml_escape k) (xml_escape v) ++ render_metadata metadata

abbrev pub lease : Text
lease = codes "<LeaseStatus>unlocked</LeaseStatus>" ++ codes "<LeaseState>available</LeaseState>"

-- an access level is written as it is
unfoldable pub public_access_element : Option Text → Text
public_access_element none = []
public_access_element (some level) = element (codes "PublicAccess") level

unfoldable pub render_container : ContainerProps → Text
unfolding public_access_element render_metadata
render_container c = element (codes "Container") (
    element (codes "Name") (xml_escape c.name)
    ++ (element (codes "Properties") (
          element (codes "Last-Modified") c.last_modified
          ++ (element (codes "Etag") c.etag
              ++ (lease ++ public_access_element (as_header_value c.public_access))))
        ++ element (codes "Metadata") (render_metadata c.metadata)))

-- the loop over the containers
unfoldable pub render_containers : List ContainerProps → Text
unfolding render_container
render_containers [] = []
render_containers (c ∷ cs) = render_container c ++ render_containers cs

unfoldable pub render_list_containers :
    Text → Option Text → Option Text → ℕ → ContainerListPage → Text
unfolding render_containers
render_list_containers service_endpoint prefix marker max_results page =
    declaration
    ++ (codes "<EnumerationResults"
        ++ (attribute (codes "ServiceEndpoint") service_endpoint
            ++ (b'>'
                ∷ (element (codes "Prefix") (xml_escape (Option.get_or prefix []))
                    ++ (element (codes "Marker") (xml_escape (Option.get_or marker []))
                        ++ (element (codes "MaxResults") (to_string max_results)
                            ++ (element (codes "Containers") (render_containers page.containers)
                                ++ (element (codes "NextMarker")
                                      (xml_escape (Option.get_or page.next_marker []))
                                    ++ codes "</EnumerationResults>"))))))))

unfoldable pub render_blob : BlobListEntry → Text
unfolding optional render_metadata
render_blob entry =
    let p = entry.props in
    element (codes "Blob") (
      element (codes "Name") (xml_escape p.name)
      ++ (element (codes "Properties") (
            element (codes "Last-Modified") p.last_modified
            ++ (element (codes "Etag") p.etag
                ++ (element (codes "Content-Length") (to_string p.content_length)
                    ++ (optional (codes "Content-Type") p.content_type
                        ++ (optional (codes "Content-MD5") p.content_md5
                            ++ (optional (codes "Content-Encoding") p.content_encoding
                                ++ (optional (codes "Content-Language") p.content_language
                                    ++ (optional (codes "Cache-Control") p.cache_control
                                        ++ (optional (codes "Content-Disposition")
                                              p.content_disposition
                                            ++ (element (codes "BlobType") (as_str p.blob_type)
                                                ++ lease))))))))))
          ++ element (codes "Metadata") (render_metadata p.metadata)))

-- the loops over the blobs and over the prefixes
unfoldable pub render_blobs : List BlobListEntry → Text
unfolding render_blob
render_blobs [] = []
render_blobs (b ∷ bs) = render_blob b ++ render_blobs bs

unfoldable pub render_prefixes : List Text → Text
render_prefixes [] = []
render_prefixes (p ∷ ps) =
    element (codes "BlobPrefix") (element (codes "Name") (xml_escape p)) ++ render_prefixes ps

unfoldable pub render_list_blobs :
    Text → Text → Option Text → Option Text → Option Text → ℕ → BlobListPage → Text
unfolding render_blobs render_prefixes optional
render_list_blobs service_endpoint container prefix delimiter marker max_results page =
    declaration
    ++ (codes "<EnumerationResults"
        ++ (attribute (codes "ServiceEndpoint") service_endpoint
            ++ (attribute (codes "ContainerName") container
                ++ (b'>'
                    ∷ (element (codes "Prefix") (xml_escape (Option.get_or prefix []))
                        ++ (optional (codes "Delimiter") delimiter
                            ++ (element (codes "Marker") (xml_escape (Option.get_or marker []))
                                ++ (element (codes "MaxResults") (to_string max_results)
                                    ++ (element (codes "Blobs") (
                                          render_blobs page.blobs
                                          ++ render_prefixes page.blob_prefixes)
                                        ++ (element (codes "NextMarker")
                                              (xml_escape (Option.get_or page.next_marker []))
                                            ++ codes "</EnumerationResults>"))))))))))
