-- ===== src/Secrets/Files/Manager.antt =====
-- The Configurator as the file manager of the store: the file names of secrets.
use Prim.Native.Char.{code}
use Prim.Native.String.append
use kubernetes_ingress.Prelude.{
  ℕ, ◌+◌, String, ◌++◌, ◌≡◌, ◌≢◌, refl, sym, ap, ◌∙◌, inl, inr, lookup, lookup-delete, arith, ◌==◌,
  eqb, eq_iff, Bool-cases, if◌then◌else◌,
}
use text.Mathlib.TextLemmas.{append_cancel_left}
use kubernetes_ingress.Api.{ObjectMeta, get_resource_key}
use kubernetes_ingress.Secrets.Store.Synced.{FileView, IsFileManager}
use kubernetes_ingress.Secrets.Files.{
  Files, FileMode, configurator_secrets, create_secret, delete_secret_file, get_filename_for_secret,
  key_to_file_name, object_meta_to_file_name, file_of,
}

-- How many characters of a text are slashes.
unfoldable pub slashes : String → ℕ
slashes String.[] = 0
slashes (String.◌∷◌ c s) = let rest = slashes s in if eqb (code c) b'/' then 1 + rest else rest

slashes-append : (s t : String) → slashes (s ++ t) ≡ slashes s + slashes t
unfolding slashes
slashes-append String.[] t = ap slashes (append.nil t) ∙ omega arith
slashes-append (String.◌∷◌ c s) t = rw (append.cons c s t) (ground (arith, slashes-append s t))

key_to_file_name-append :
    (s t : String) → key_to_file_name (s ++ t) ≡ key_to_file_name s ++ key_to_file_name t
unfolding key_to_file_name
key_to_file_name-append String.[] t =
    ap key_to_file_name (append.nil t) ∙ sym (append.nil (key_to_file_name t))
key_to_file_name-append (String.◌∷◌ c s) t =
    rw
      (
        append.cons c s t,
        append.cons (if eqb (code c) b'/' then "-" else c) (key_to_file_name s)
            (key_to_file_name t),
        key_to_file_name-append s t,
      )
      refl

key_to_file_name-id : (s : String) → slashes s ≡ 0 → key_to_file_name s ≡ s
unfolding key_to_file_name slashes
key_to_file_name-id String.[] z = refl
key_to_file_name-id (String.◌∷◌ c s) z = elim (Bool-cases (eqb (code c) b'/')) [
  | inl e ↦ ground arith
  | inr e ↦ rw (e, key_to_file_name-id s (ground arith)) refl
]

-- The file name of an object is that of its key, if the key has one slash.
key_to_file_name-get_resource_key :
    (meta : ObjectMeta)
    → slashes (get_resource_key meta) ≡ 1
    → object_meta_to_file_name meta ≡ key_to_file_name (get_resource_key meta)
unfolding object_meta_to_file_name get_resource_key slashes key_to_file_name
key_to_file_name-get_resource_key meta one =
    let parts : slashes (meta.namespace ++ "/" ++ meta.name)
        ≡ slashes meta.namespace + (1 + slashes meta.name) =
      slashes-append meta.namespace ("/" ++ meta.name)
      ∙ ap (λ x. slashes meta.namespace + x) (slashes-append "/" meta.name) in
    sym (
      key_to_file_name-append meta.namespace ("/" ++ meta.name)
      ∙ rw
          (
            key_to_file_name-append "/" meta.name,
            key_to_file_name-id meta.namespace (ground arith),
            key_to_file_name-id meta.name (ground arith),
          )
          refl)

-- The secret files of a directory, by the keys of their secrets.
abbrev pub secret_files : String → FileView Files (FileMode × String)
secret_files secrets_path = record {
  read = λ files k. lookup (get_filename_for_secret secrets_path (key_to_file_name k)) files;
  content = file_of;
  path_of = λ k. get_filename_for_secret secrets_path (key_to_file_name k);
}

filename-== :
    (secrets_path k k' : String)
    → ((key_to_file_name k ≡ key_to_file_name k') → k ≡ k')
    → (get_filename_for_secret secrets_path (key_to_file_name k)
        == get_filename_for_secret secrets_path (key_to_file_name k'))
      ≡ (k == k')
unfolding get_filename_for_secret
filename-== secrets_path k k' inj = elim (Bool-cases (k == k')) [
  | inl e ↦ ground (
    arith,
    ap (get_filename_for_secret secrets_path) (ap key_to_file_name ((eq_iff k k').0 e)),
    eq_iff (get_filename_for_secret secrets_path (key_to_file_name k))
        (get_filename_for_secret secrets_path (key_to_file_name k')),
  )
  | inr e ↦
      elim (Bool-cases (
        get_filename_for_secret secrets_path (key_to_file_name k)
        == get_filename_for_secret secrets_path (key_to_file_name k'))) [
          | inl f ↦ ground (
            arith,
            eq_iff k k',
            inj (
                append_cancel_left "/" (key_to_file_name k) (key_to_file_name k') (
                  append_cancel_left secrets_path ("/" ++ key_to_file_name k)
                    ("/" ++ key_to_file_name k')
                    ((eq_iff (get_filename_for_secret secrets_path (key_to_file_name k))
                        (get_filename_for_secret secrets_path (key_to_file_name k'))).0
                      f))),
          )
          | inr f ↦ rw (e, f) refl
        ]
]

-- A path has a slash.
filename-≢ : (secrets_path name : String) → get_filename_for_secret secrets_path name ≢ ""
unfolding get_filename_for_secret slashes
filename-≢ secrets_path name e =
    let some_slash : slashes (secrets_path ++ "/" ++ name)
        ≡ slashes secrets_path + (1 + slashes name) =
      slashes-append secrets_path ("/" ++ name)
      ∙ ap (λ x. slashes secrets_path + x) (slashes-append "/" name) in
    let no_slash : slashes (secrets_path ++ "/" ++ name) ≡ 0 = ap slashes e in absurd (omega arith)

-- The Configurator is a file manager on keys of one slash that have different file names.
pub configurator_secrets-IsFileManager :
    (Keys : String → Type 0) (secrets_path : String)
    → ((k : String) → Keys k → slashes k ≡ 1)
    → ((k k' : String) → Keys k → Keys k' → key_to_file_name k ≡ key_to_file_name k' → k ≡ k')
    → IsFileManager Keys (secret_files secrets_path) (configurator_secrets secrets_path)
unfolding configurator_secrets create_secret delete_secret_file
configurator_secrets-IsFileManager Keys secrets_path one inj = record {
  path = λ secret files known.
      ap (get_filename_for_secret secrets_path)
        (key_to_file_name-get_resource_key secret.meta (one (get_resource_key secret.meta) known));
  path_ne = λ k e. filename-≢ secrets_path (key_to_file_name k) e;
  read_written = λ secret files k known at.
      rw
        (
          key_to_file_name-get_resource_key secret.meta (one (get_resource_key secret.meta) known),
          filename-== secrets_path (get_resource_key secret.meta) k
              (inj (get_resource_key secret.meta) k known at),
        )
        refl;
  read_deleted = λ key files k known at.
      lookup-delete (get_filename_for_secret secrets_path (key_to_file_name key))
        (get_filename_for_secret secrets_path (key_to_file_name k)) files
      ∙ rw (filename-== secrets_path key k (inj key k known at)) refl;
}
