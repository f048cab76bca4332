-- ===== src/Examples/Downloads.antt =====
-- The theorem on the handlers over a bucket, with a metadata store that knows one object.
use lfs_server_go.Prelude.{◌≡◌, refl, none, some, []}
use lfs_server_go.Text.{lit, ◌==◌}
use lfs_server_go.Errors.{ok}
use lfs_server_go.AwsContentStore.{put, get, send, get_meta_data, sha_str}
use lfs_server_go.Hex.{encode_to_string, hex_digit}
use lfs_server_go.FilePath.{join}
use lfs_server_go.TransformKey.{transform_key}
use lfs_server_go.Server.{GenericMetaStore, App, Request, fresh, code_of, unpack, write}
use lfs_server_go.Handlers.{get_content_handler, put_handler}
use lfs_server_go.Handlers.Guard.{content_handlers-code}
use lfs_server_go.Handlers.Cloud.{s3_app, s3_upload_download}
use lfs_server_go.Examples.Setup.{settings}
use lfs_server_go.Examples.Disk.{abc, upload}
use lfs_server_go.Examples.Requests.{json, no_text, request}
use lfs_server_go.Examples.Bucket.{Keys, s3, held_keys, s3-IsS3, cloud, no_keys, taken}

abbrev one_object : GenericMetaStore Unit
one_object = record {
  put = λ v m. (some (ok abc), m);
  get = λ v m. ok abc;
  delete_user = λ user m. (none, m);
  add_user = λ salt user pass m. (none, m);
  add_project = λ name m. (none, m);
  users = λ m. ok [];
  objects = λ m. some (ok []);
  projects = λ m. some (ok []);
}

abbrev app : App Unit Keys
app = s3_app one_object cloud settings json no_text

abbrev sent : Request
sent = request (lit "PUT") []

abbrev asked : Request
asked = request (lit "GET") []

same : unpack json asked ≡ unpack json sent
unfolding unpack ◌==◌
same = refl

accepted : code_of (put_handler app sent fresh tt no_keys).0 ≡ 200
accepted = (content_handlers-code app sent tt no_keys).1.1 (abc, refl, taken)

stored : get cloud abc (put_handler app sent fresh tt no_keys).1 ≡ ok upload
unfolding put_handler put get send get_meta_data sha_str encode_to_string hex_digit s3 ◌==◌
    transform_key join
stored = refl

s3_upload_download_example :
    get_content_handler app asked fresh tt (put_handler app sent fresh tt no_keys).1
    ≡ write (lit "abc") fresh
s3_upload_download_example =
    s3_upload_download one_object cloud settings json no_text held_keys s3-IsS3 sent asked tt
      no_keys abc upload same refl accepted stored refl
