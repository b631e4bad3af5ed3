-- ===== src/Tests/StoreTests.antt =====
-- Tags, atoms and owners: the results at small tables.
use apk_tools.Database.Acl.RoundTrip.{read_acl-apk_blob_push_db_acl}
use apk_tools.Blob.Digest.{Digest}
use apk_tools.Database.Acl.{Acl, apk_blob_push_db_acl, read_acl}
use apk_tools.Blob.{blob, null, bytes, room, apk_blob_push_blob}
use apk_tools.Database.Tags.{apk_db_get_tag_id, RepoTag}
use apk_tools.Database.Tags.Laws.{apk_db_get_tag_id-IsNumbered, IsNumbered}
use apk_tools.Atom.{apk_atom_init, apk_atomize_dup}
use apk_tools.Atom.Interns.{apk_atomize_dup-intern, Represents, init-Represents, intern}
use apk_tools.Atom.Interns.Distinct.{apk_atomize_dup_iff, atomize_all}
use apk_tools.Prelude.{List, [], ◌∷◌, codes, ◌≡◌, refl, arith, some, ℕ, ◌↔◌, inr, Bytes, replicate}

abbrev edge_tags : List RepoTag
edge_tags = record { tag = codes "@edge"; plain_name = codes "edge" } ∷ []

apk_db_get_tag_id-IsNumbered_example :
    (n : ℕ) × (tags' : List RepoTag) × (apk_db_get_tag_id edge_tags (blob (codes "testing"))
      ≡ (some n, tags'))
    × (apk_db_get_tag_id edge_tags (blob (b'@' ∷ codes "testing")) ≡ (some n, tags'))
    × IsNumbered edge_tags (codes "testing") n tags'
apk_db_get_tag_id-IsNumbered_example =
    apk_db_get_tag_id-IsNumbered edge_tags (codes "testing") ((refl, tt), omega arith) refl
      (inr (omega arith))

apk_atomize_dup-intern_example :
    ((apk_atomize_dup apk_atom_init (blob (codes "musl"))).0 ≡ record {
      ptr = (intern [] (bytes (blob (codes "musl")))).0;
      blob = bytes (blob (codes "musl"));
    })
    × Represents
        ((apk_atomize_dup apk_atom_init (blob (codes "musl"))).1)
        ((intern [] (bytes (blob (codes "musl")))).1)
apk_atomize_dup-intern_example =
    apk_atomize_dup-intern apk_atom_init [] (blob (codes "musl")) init-Represents

apk_atomize_dup_iff_example :
    let first =
      apk_atomize_dup (atomize_all apk_atom_init (blob (codes "a") ∷ [])) (blob (codes "b")) in
    let second = apk_atomize_dup (atomize_all first.1 (null ∷ [])) (blob (codes "b")) in
    (first.0.ptr ≡ second.0.ptr) ↔ (bytes (blob (codes "b")) ≡ bytes (blob (codes "b")))
apk_atomize_dup_iff_example =
    apk_atomize_dup_iff (blob (codes "a") ∷ []) (null ∷ []) (blob (codes "b")) (blob (codes "b"))

abbrev root_acl : Acl
root_acl = record { mode = 0x1ed; uid = 0; gid = 42; xattr_hash = [] }

abbrev old_digest : Digest
old_digest = record { alg = 2; len = 20; contents = replicate 64 1 }

read_acl-apk_blob_push_db_acl_example :
    (text : Bytes) × (apk_blob_push_db_acl (room [] 40) b'M' root_acl
      ≡ some (
          apk_blob_push_blob
            (apk_blob_push_blob (apk_blob_push_blob (room [] 40) (b'M' ∷ b':' ∷ [])) text)
            (codes "\n")))
    × (read_acl (blob text) old_digest ≡ some (blob [], root_acl))
read_acl-apk_blob_push_db_acl_example =
    read_acl-apk_blob_push_db_acl (room [] 40) b'M' root_acl old_digest (omega arith) (omega arith)
      (omega arith) refl
