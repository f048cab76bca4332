-- ===== src/TransformKey.antt =====
-- shared_content_store.go: the path of an oid below the root of a content store.
pub mod Laws
use lfs_server_go.Prelude.{[], ◌∷◌, length, take, drop, ltb, if◌then◌else◌}
use lfs_server_go.Text.{Bytes}
use lfs_server_go.FilePath.{join}

unfoldable pub transform_key : Bytes → Bytes
transform_key key =
    if ltb (length key) 5 then key else join (take 2 key ∷ take 2 (drop 2 key) ∷ drop 4 key ∷ [])
