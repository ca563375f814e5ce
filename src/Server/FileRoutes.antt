-- ===== src/Server/FileRoutes.antt =====
-- The handlers of internal/server/routes.go for the files of a container, and for the host.
use dockpal_agent.Base.{
  ℕ, ◌+◌, ◌*◌, ◌^◌, [], Option, none, some, Result, ok, err, length, ltb, if◌then◌else◌,
}
use dockpal_agent.Base.Bytes.{Bytes, codes, replace_byte, split_last}
use dockpal_agent.Edge.Protocol.{Call}
use dockpal_agent.Edge.Json.{WriteRequest}
use dockpal_agent.Exec.{take}
use dockpal_agent.Server.Http.{
  HttpRequest, Reply, M, Backend, attempt, write_json, internal_error, bad_request, read_json,
  query_get, or_internal, done_text,
}

-- 50 << 20
abbrev max_upload_size : ℕ
max_upload_size = 50 * 2 ^ 20

unfoldable pub sanitize_filename : Bytes → Bytes
sanitize_filename name =
    replace_byte b'"' (codes "'") (replace_byte 10 [] (replace_byte 13 [] name))

abbrev after_slash : Bytes → Option (Bytes × Bytes) → Bytes
after_slash whole none = whole
after_slash whole (some (dir, file)) = file

-- the name behind the last slash; the quoting of `%q` is left out
unfoldable pub download_name : Bytes → Bytes
download_name path = after_slash (sanitize_filename path) (split_last b'/' (sanitize_filename path))

-- The form of an upload: the content of its file, or the error of reading it, and its values.
pub record Form : Type 0 where
  pub file : Result Bytes
  pub container : Bytes
  pub path : Bytes

module _ (docker : Backend) where
  abbrev of_query : Bytes → HttpRequest → Bytes
  of_query key r = query_get key r.query

  unfoldable pub handle_list_files : HttpRequest → M (Unit {0})
  handle_list_files r =
      or_internal docker
        (Call.list_files (of_query (codes "container") r) (of_query (codes "path") r)) Reply.value

  unfoldable pub handle_read_file : HttpRequest → M (Unit {0})
  handle_read_file r =
      or_internal docker
        (Call.read_file (of_query (codes "container") r) (of_query (codes "path") r)) Reply.content

  unfoldable pub handle_write_file : Option WriteRequest → M (Unit {0})
  handle_write_file req = read_json req λ w.
      or_internal docker (Call.write_file w.container w.path w.content)
        (done_text (codes "written"))

  abbrev pub upload : Bytes → Bytes → Result Bytes → M (Unit {0})
  upload container path (err e) = internal_error e
  upload container path (ok content) =
      if ltb max_upload_size (length content)
      then write_json 413 (Reply.error (codes "file too large (max 50MB)"))
      else or_internal docker (Call.write_file container path content)
          (done_text (codes "uploaded"))

  abbrev pub limited : Result Bytes → Result Bytes
  limited (ok content) = ok (take (max_upload_size + 1) content)
  limited (err e) = err e

  -- r.FormFile behind http.MaxBytesReader gives the form, or an error
  unfoldable pub handle_upload_file : Option Form → M (Unit {0})
  handle_upload_file none = bad_request (codes "file is required (max 50MB)")
  handle_upload_file (some f) = upload f.container f.path (limited f.file)

  unfoldable pub handle_download_file : HttpRequest → M (Unit {0})
  handle_download_file r =
      let path = of_query (codes "path") r in
      or_internal docker (Call.read_file (of_query (codes "container") r) path)
        (λ content. Reply.attachment (download_name path) content)

  unfoldable pub handle_delete_file : HttpRequest → M (Unit {0})
  handle_delete_file r =
      or_internal docker
        (Call.delete_file (of_query (codes "container") r) (of_query (codes "path") r))
        (done_text (codes "deleted"))

  -- the body decodes to a path and a content
  unfoldable pub handle_container_file_write : Option (Bytes × Bytes) → HttpRequest → M (Unit {0})
  handle_container_file_write req r =
      read_json req
        λ w. or_internal docker (Call.write_file r.id w.0 w.1) (done_text (codes "written"))

  -- a version that cannot be read is ""; package host returns no error
  unfoldable pub handle_host_info : M (Unit {0})
  handle_host_info =
      let info : Bytes → M (Unit {0}) = λ v.
        attempt docker (Call.host_info v) (λ i. write_json 200 (Reply.value i))
          (λ _. write_json 200 (Reply.value [])) in
      attempt docker Call.server_version info (λ _. info [])

  unfoldable pub handle_host_stats : M (Unit {0})
  handle_host_stats =
      attempt docker Call.host_stats (λ v. write_json 200 (Reply.value v))
        (λ _. write_json 200 (Reply.value []))
