-- ===== src/SecretFile.antt =====
-- Files with a secret: `write_secret_file` of src/server.rs, and the temporary file that it leaves
-- where a step on the file system fails.
use Prim.Native.String.{◌++◌ as append, [] as empty, ◌∷◌ as cons}
use beacon_alerts.Prelude.{
  ℕ, zero, suc, ◌≡◌, refl, ◌⊎◌, inl, inr, ◌&&◌, arith, Bool-cases, Option-cases, String, Bool, true,
  false, not, Option, none, some, trim, if◌then◌else◌,
}
use beacon_alerts.Fallible.{Error, Result, ok, err, ◌>>◌, guard, io_failed, no_parent, token_exists}

-- Whether the path of the file has a parent, and whether making the directory and the temporary file,
-- linking it to the path and removing it succeed. Where writing fails, `cut` is the number of the
-- characters that the temporary file then has.
pub record SecretPath : Type 0 where
  pub has_parent : Bool
  pub created : Bool
  pub cut : Option ℕ
  pub linked : Bool
  pub removed : Bool

abbrev pub working : SecretPath
working = record { has_parent = true; created = true; cut = none; linked = true; removed = true }

abbrev pub exists : Option String → Bool
exists none = false
exists (some text) = true

-- the line that is written
abbrev pub secret_line : String → String
secret_line secret = append (trim secret) "\n"

-- the first characters of a text
unfoldable pub beginning : ℕ → String → String
beginning zero s = ""
beginning (suc n) empty = ""
beginning (suc n) (cons c s) = cons c (beginning n s)

-- The answer, with the text of the file and of the temporary file, where they are there then.
abbrev pub Writing : Type 0
Writing = Result (Unit {0}) × (Option String × Option String)

-- the temporary file after an attempt to remove it
abbrev pub unless_removed : Bool → String → Option String
unless_removed true line = none
unless_removed false line = some line

-- linking the temporary file, which has the line, to the path
abbrev pub install : SecretPath → String → Option String → Writing
install path line file =
    if path.linked
    then (guard path.removed io_failed, (some line, unless_removed path.removed line))
    else (err io_failed, (file, some line))

-- `file` is the text of the file before.
unfoldable pub write_secret_file : SecretPath → String → Option String → Writing
unfolding beginning
write_secret_file path secret file =
    elim (do
      guard path.has_parent no_parent
      guard (not (exists file)) token_exists
      guard path.created io_failed) [
        | err e ↦ (err e, (file, none))
        | ok _ ↦ elim path.cut [
          | some n ↦ (err io_failed, (file, some (beginning n (secret_line secret))))
          | none ↦ install path (secret_line secret) file
        ]
      ]

abbrev is_none : Option ℕ → Bool
is_none none = true
is_none (some n) = false

-- the file is installed at its path
abbrev pub installs : SecretPath → Bool
installs path = path.has_parent && (path.created && (is_none path.cut && path.linked))

-- What is left of the temporary file with the secret: nothing, where it was not made or has been
-- removed; and otherwise its line, or the beginning of it that was written.
abbrev pub left_over : SecretPath → String → Option String
left_over path secret =
    if path.has_parent && path.created
    then elim path.cut [
      | some n ↦ some (beginning n (secret_line secret))
      | none ↦ if path.linked && path.removed then none else some (secret_line secret)
    ]
    else none

-- What writing a file that does not exist leaves: no file, or its line with or without an error,
-- besides what is left of the temporary file.
abbrev pub IsNew : SecretPath → String → Writing → Type 0
IsNew path secret wrote =
    ((installs path ≡ false) × ((e : Error) × (wrote ≡ (err e, (none, left_over path secret)))))
    ⊎ ((installs path ≡ true)
        × (((path.removed ≡ false)
              × ((e : Error) × (wrote
                    ≡ (err e, (some (secret_line secret), left_over path secret)))))
            ⊎ ((path.removed ≡ true) × (wrote ≡ (ok tt, (some (secret_line secret), none))))))

pub write_secret_file-IsNew :
    (path : SecretPath) (secret : String) → IsNew path secret (write_secret_file path secret none)
unfolding write_secret_file
write_secret_file-IsNew path secret = elim (Bool-cases path.has_parent) [
  | inr f ↦ rw (f, write_secret_file) (inl (refl, (no_parent, refl)))
  | inl p ↦ elim (Bool-cases path.created) [
    | inr f ↦ rw (p, f, write_secret_file) (inl (refl, (io_failed, refl)))
    | inl w ↦ elim (Option-cases path.cut) [
      | inr (n, f) ↦ rw (p, w, f, write_secret_file) (inl (refl, (io_failed, refl)))
      | inl whole ↦ elim (Bool-cases path.linked) [
        | inr f ↦ rw (p, w, whole, f, write_secret_file) (inl (refl, (io_failed, refl)))
        | inl l ↦ elim (Bool-cases path.removed) [
          | inr f ↦
              rw (p, w, whole, l, f, write_secret_file) (inr (refl, inl (refl, (io_failed, refl))))
          | inl r ↦ rw (p, w, whole, l, r, write_secret_file) (inr (refl, inr (refl, refl)))
        ]
      ]
    ]
  ]
]

-- Where the file is installed and the temporary file removed, nothing is left.
pub installed_left_over :
    (path : SecretPath) (secret : String)
    → installs path ≡ true
    → path.removed ≡ true
    → left_over path secret ≡ none
installed_left_over path secret i r = elim (Bool-cases path.has_parent) [
  | inr f ↦ absurd (ground (arith, i, f))
  | inl p ↦ elim (Bool-cases path.created) [
    | inr f ↦ absurd (ground (arith, i, f))
    | inl c ↦ elim (Option-cases path.cut) [
      | inr (n, f) ↦ cc (rw (p, c, f) at i)
      | inl whole ↦ elim (Bool-cases path.linked) [
        | inr f ↦ cc (rw (p, c, whole, f) at i)
        | inl l ↦ rw (p, c, whole, l, r) refl
      ]
    ]
  ]
]
