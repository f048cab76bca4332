-- ===== src/Examples/Tests.antt =====
-- The matchers at a request for a content, and tests of the text functions.
use lfs_server_go.Prelude.{◌≡◌, refl, ◌↔◌, true, false, ◌&&◌, some, [], ◌∷◌, ◌++◌}
use lfs_server_go.Text.{lit, ◌==◌}
use lfs_server_go.Base64.{decode, quanta, without_breaks, digit}
use lfs_server_go.FilePath.{
  join, clean, dir, split_from, split_slash, join_slash, resolve, resolve_all, is_rooted, render,
  up_to_slash,
}
use lfs_server_go.TransformKey.{transform_key}
use lfs_server_go.Server.{
  Request, first_line, content_media_type, meta_media_type, content_matcher, meta_matcher,
}
use lfs_server_go.Server.Matching.{IsMedia, matchers_iff}
use lfs_server_go.Examples.Requests.{request}

-- A request that accepts the content type with a parameter.
abbrev content_request : Request
content_request = record (request (lit "GET") []) {
  accept = (content_media_type ++ lit "; charset=utf-8") ∷ [];
}

matchers_iff_example :
    ((content_matcher content_request ≡ true)
      ↔ IsMedia content_media_type (first_line content_request.accept))
    × ((meta_matcher content_request ≡ true)
        ↔ IsMedia meta_media_type (first_line content_request.accept))
    × ((content_matcher content_request && meta_matcher content_request) ≡ false)
matchers_iff_example = matchers_iff content_request

decodes : decode (lit "YWRtaW46YWRtaW4=") ≡ some (lit "admin:admin")
unfolding decode quanta without_breaks digit
decodes = refl

long_key : transform_key (lit "6ae8a7") ≡ lit "6a/e8/a7"
unfolding transform_key join clean split_slash split_from join_slash resolve resolve_all is_rooted
    render ◌==◌
long_key = refl

short_key : transform_key (lit "6ae8") ≡ lit "6ae8"
unfolding transform_key
short_key = refl

-- An oid whose path is outside the directory of the store.
escaping_key : transform_key (lit "../../etc/passwd") ≡ lit "../etc/passwd"
unfolding transform_key join clean split_slash split_from join_slash resolve resolve_all is_rooted
    render ◌==◌
escaping_key = refl

parent : dir (lit "lfs-content/6a/e8/a7") ≡ lit "lfs-content/6a/e8"
unfolding dir clean split_slash split_from join_slash resolve resolve_all is_rooted render
    up_to_slash ◌==◌
parent = refl
