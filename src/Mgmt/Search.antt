-- ===== src/Mgmt/Search.antt =====
-- What searchOidHandler of mgmt.go writes.
use lfs_server_go.Prelude.{
  ◌≡◌, refl, sym, ap, ◌∙◌, inl, inr, false, some, List, [], ◌∷◌, ◌++◌, if◌then◌else◌, Bool-cases,
  Option-cases,
}
use mathlib.Core.List.{append_assoc, append-nil}
use lfs_server_go.Text.{Bytes, lit, ◌==◌, contains}
use lfs_server_go.Errors.{ok}
use lfs_server_go.Types.{MetaObject}
use lfs_server_go.Server.{App, Request, ResponseWriter, fresh, set_header, write}
use lfs_server_go.Mgmt.{Web, found_oid, search_loop, search_oid_handler, show_json}

-- The objects whose oid contains a text, in order.
unfoldable pub matching : Bytes → List MetaObject → List MetaObject
matching searched [] = []
matching searched (o ∷ os) =
    let rest = matching searched os in if contains o.oid searched then o ∷ rest else rest

-- Texts one behind another.
abbrev pub concat_of : (MetaObject → Bytes) → List MetaObject → Bytes
concat_of f [] = []
concat_of f (o ∷ os) = f o ++ concat_of f os

module _ {M C : Type 0} (app : App M C) (web : Web) (json : MetaObject → Bytes) where
  open app use {meta_store}

  module _ (marshals : (o : MetaObject) → web.marshal_object o ≡ ok (json o)) where
    found_oid-body :
        (r : Request) (o : MetaObject) (w : ResponseWriter)
        → (found_oid app web r o w).body ≡ w.body ++ json o
    unfolding found_oid show_json write set_header
    found_oid-body r o w =
        rw (marshals o, show_json)
          (elim (Option-cases w.status) [
            | inl unsent ↦ rw unsent refl
            | inr (n, sent) ↦ rw sent refl
          ])

    search_loop-body :
        (r : Request) (searched : Bytes) (os : List MetaObject) (w : ResponseWriter)
        → (search_loop app web r searched os w).body
          ≡ w.body ++ concat_of json (matching searched os)
    unfolding search_loop matching
    search_loop-body r searched [] w = sym (append-nil w.body)
    search_loop-body r searched (o ∷ os) w = elim (Bool-cases (contains o.oid searched)) [
      | inl hit ↦
          rw (hit, search_loop)
            (search_loop-body r searched os (found_oid app web r o w)
              ∙ ap (λ b. b ++ concat_of json (matching searched os)) (found_oid-body r o w)
              ∙ append_assoc w.body (json o) (concat_of json (matching searched os)))
      | inr miss ↦ rw (miss, search_loop) (search_loop-body r searched os w)
    ]

    -- With a store that opens and lists its objects, a search for a text that is not empty writes
    -- the JSON of the objects whose oid contains the text, each once and in the store's order, and
    -- nothing else.
    pub search_oid_handler-body :
        (m : M) (r : Request) (os : List MetaObject)
        → (web.query r (lit "oid") == []) ≡ false
        → meta_store.objects m ≡ some (ok os)
        → (w : ResponseWriter) × (search_oid_handler app web (ok m) r fresh ≡ some w)
          × (w.body ≡ concat_of json (matching (web.query r (lit "oid")) os))
    unfolding search_oid_handler
    search_oid_handler-body m r os asked listed = (
      search_loop app web r (web.query r (lit "oid")) os fresh,
      rw (listed, search_oid_handler) (rw asked refl),
      search_loop-body r (web.query r (lit "oid")) os fresh,
    )
