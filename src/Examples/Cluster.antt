-- ===== src/Examples/Cluster.antt =====
-- The theorems on cassandra_meta_store.go at a cluster in memory, which reads the statement that adds
-- an oid to a project.
use mathlib.Core.List.{Memᴰ}
use lfs_server_go.Prelude.{
  ◌≡◌, refl, ap, ◌∙◌, inl, inr, true, Option, none, some, List, [], ◌∷◌, ◌++◌, arith, take, drop,
  take-length-append, drop-length-append, Bool-cases, if◌then◌else◌,
}
use lfs_server_go.Text.{Bytes, lit, ◌==◌, has_prefix, trim_prefix, index_byte}
use lfs_server_go.Text.Laws.{
  eq_iff, eq_refl, Lacks, has_prefix-append, trim_prefix-append, index_byte-append,
}
use lfs_server_go.Errors.{Error, foreign}
use lfs_server_go.Types.{ℤ}
use lfs_server_go.CassandraMetaStore.Session.{CqlSession, IsCqlSession, quote, add_oid_text}
use lfs_server_go.CassandraMetaStore.{CassandraEnv, put}
use lfs_server_go.CassandraMetaStore.Put.{PutOutcome, cassandra_put-PutOutcome}
use lfs_server_go.Examples.Codec.{codec, codec-IsGob}
use lfs_server_go.Examples.Setup.{settings, no_directory, plain_hashing, request_vars}

-- What stands before the first quote, and the rest.
unfoldable at_quote : Bytes → Option (Bytes × Bytes)
at_quote s = elim (index_byte s quote) [ none ↦ none | some i ↦ some (take i s, drop i s) ]

at_quote-append : (s t : Bytes) → Lacks quote s → at_quote (s ++ quote ∷ t) ≡ some (s, quote ∷ t)
unfolding at_quote
at_quote-append s t h =
    rw (index_byte-append quote s t h, at_quote)
      (rw (take-length-append s (quote ∷ t)) (rw (drop-length-append s (quote ∷ t)) refl))

abbrev head : Bytes
head = lit "update projects set oids = oids + {'"

abbrev middle : Bytes
middle = lit "'} where name = '"

-- The oid and the project of the statement.
unfoldable parse : Bytes → Option (Bytes × Bytes)
parse text =
    if has_prefix text head
    then elim (at_quote (trim_prefix text head)) [
      | none ↦ none
      | some (oid, rest) ↦ elim (at_quote (trim_prefix rest middle)) [
        | none ↦ none
        | some (project, _) ↦ some (oid, project)
      ]
    ]
    else none

parse-add_oid_text :
    (oid project : Bytes)
    → Lacks quote oid
    → Lacks quote project
    → parse (add_oid_text oid project) ≡ some (oid, project)
unfolding parse add_oid_text
parse-add_oid_text oid project plain_oid plain_project =
    let tail : Bytes = middle ++ (project ++ quote ∷ []) in
    let begins : has_prefix (add_oid_text oid project) head ≡ true =
      has_prefix-append head (oid ++ tail) in
    let first : at_quote (trim_prefix (add_oid_text oid project) head) ≡ some (oid, tail) =
      ap at_quote (trim_prefix-append head (oid ++ tail))
      ∙ at_quote-append oid (drop 1 tail) plain_oid in
    let second : at_quote (trim_prefix tail middle) ≡ some (project, quote ∷ []) =
      ap at_quote (trim_prefix-append middle (project ++ quote ∷ []))
      ∙ at_quote-append project [] plain_project in
    rw (begins, parse) (rw (first, parse) (rw (second, parse) refl))

-- The sizes of the oids, the oids of the projects, and the names of the users.
record Tables : Type 0 where
  oids : Bytes → Option ℤ
  projects : Bytes → Option (List Bytes)
  users : List Bytes

abbrev refused : Error
refused = foreign (lit "refused")

abbrev more : Bytes → Option (List Bytes) → List Bytes
more oid none = oid ∷ []
more oid (some oids) = oid ∷ oids

unfoldable tables : CqlSession Tables
tables = record {
  scan_project = λ p s. elim (s.projects p) [
    | none ↦ none
    | some oids ↦ some (record { name = p; oids = oids })
  ];
  count_projects = λ p s. some (elim (s.projects p) [ none ↦ 0 | some oids ↦ 1 ]);
  scan_oid = λ j s. elim (s.oids j) [ none ↦ none | some n ↦ some (j, n) ];
  scan_user = λ u s. none;
  all_users = λ s. s.users;
  all_oids = λ s. [];
  all_projects = λ s. [];
  insert_project =
      λ p s. (none, record s { projects = λ q. if p == q then some [] else s.projects q });
  insert_oid = λ k n s.
      if k == []
      then (some refused, s)
      else (none, record s { oids = λ j. if k == j then some n else s.oids j });
  insert_user = λ u p s. (some refused, s);
  delete_oid = λ k s. (some refused, s);
  delete_project = λ p s. (some refused, s);
  delete_user = λ u s. (some refused, s);
  run_text = λ text s. elim (parse text) [
    | none ↦ (some refused, s)
    | some (oid, project) ↦ (
      none,
      record s {
        projects = λ q. if project == q then some (more oid (s.projects project)) else s.projects q;
      },
    )
  ];
}

more-has : (oid : Bytes) (o : Option (List Bytes)) → Memᴰ oid (more oid o)
more-has oid none = Memᴰ.head refl
more-has oid (some oids) = Memᴰ.head refl

refuses_blank : (n : ℤ) (s : Tables) → (tables.insert_oid [] n s).0 ≡ some refused
unfolding tables ◌==◌
refuses_blank n s = refl

added :
    (oid project : Bytes) (s : Tables)
    → Lacks quote oid
    → Lacks quote project
    → tables.scan_project project (tables.run_text (add_oid_text oid project) s).1
      ≡ some (record { name = project; oids = more oid (s.projects project) })
unfolding tables
added oid project s plain_oid plain_project =
    rw (parse-add_oid_text oid project plain_oid plain_project, tables)
      (rw (eq_refl project, tables) refl)

tables-IsCqlSession : IsCqlSession tables
unfolding tables
tables-IsCqlSession = record {
  oid_inserted = λ k j n s done. elim (Bool-cases (k == [])) [
    | inl blank ↦ absurd (ground arith)
    | inr named ↦ elim (Bool-cases (k == j)) [
      | inl here ↦ rw (named, tables) (rw (here, tables) (rw ((eq_iff k j).0 here) refl))
      | inr other ↦ rw (named, tables) (rw (other, tables) refl)
    ]
  ];
  oid_insert_other = λ k j n s differ. elim (Bool-cases (k == [])) [
    | inl blank ↦ rw (blank, tables) refl
    | inr named ↦ elim (Bool-cases (k == j)) [
      | inl here ↦ absurd (differ ((eq_iff k j).0 here))
      | inr other ↦ rw (named, tables) (rw (other, tables) refl)
    ]
  ];
  oid_insert_blank = λ n s. (refused, refuses_blank n s);
  project_insert_oids = λ k j s. refl;
  oid_added = λ oid project s plain_oid plain_project done. (
    record { name = project; oids = more oid (s.projects project) },
    added oid project s plain_oid plain_project,
    refl,
    more-has oid (s.projects project),
  );
  oid_add_oids = λ oid project j s plain_oid plain_project.
      rw (parse-add_oid_text oid project plain_oid plain_project, tables) refl;
}

-- A public server.
abbrev open_env : CassandraEnv Tables Unit
open_env = record {
  cfg = record settings { public = true };
  session = tables;
  gob = codec;
  hashing = plain_hashing;
  ldap = no_directory;
}

abbrev two_users : Tables
two_users = record { oids = λ j. none; projects = λ p. none; users = lit "u" ∷ lit "v" ∷ [] }

cassandra_put-PutOutcome_example :
    PutOutcome open_env tables-IsCqlSession codec-IsGob request_vars two_users
      (put open_env request_vars two_users).0
      (put open_env request_vars two_users).1
cassandra_put-PutOutcome_example =
    cassandra_put-PutOutcome open_env tables-IsCqlSession codec-IsGob request_vars two_users
      (omega arith, (omega arith, (omega arith, (omega arith, (omega arith, (omega arith, tt))))))
      (omega arith, (omega arith, (omega arith, (omega arith, tt))))
