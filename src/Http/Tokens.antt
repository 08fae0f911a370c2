-- ===== src/Http/Tokens.antt =====
-- Which requests `authorized` of src/server.rs lets through.
use Prim.Native.Char.{code}
use Prim.Native.String.{[], ◌∷◌, ◌++◌ as append}
use text.Mathlib.TextEquality.{Char-path}
use text.Mathlib.TextLemmas.{nil-append, cons-append}
use beacon_alerts.Prelude.{
  String, not, ◌&&◌, is_empty, trim, ◌==◌, ◌≡◌, refl, sym, ap, ◌∙◌, ◌↔◌, inl, inr, Bool, true,
  false, ◌||◌, Option, none, some, List, arith, All, any, eqb, eqb_iff, Bool-cases, Option-cases,
}
use beacon_alerts.Fallible.{Result, ok, err, >>=-eq-ok, ok-injective, same_some}
use beacon_alerts.Http.{
  CredentialEntry, authorized_from, check_token, strip_prefix, accepted_token, authorized, unwrap,
  read_entry,
}

-- The entry can be read: it is no file, or a file with a text.
abbrev pub Readable : Option Bool → Option String → Type 0
Readable none text = ⊥
Readable (some false) text = Unit {0}
Readable (some true) none = ⊥
Readable (some true) (some text) = Unit {0}

abbrev pub IsReadable : CredentialEntry → Type 0
IsReadable entry = Readable entry.is_file entry.text

-- The entry is a file whose text, trimmed, is the token and not empty.
abbrev pub names_token : String → Option Bool → Option String → Bool
names_token token (some true) (some text) = not (is_empty (trim text)) && trim text == token
names_token token is_file text = false

abbrev pub is_credential : String → CredentialEntry → Bool
is_credential token entry = names_token token entry.is_file entry.text

strip_prefix-eq-some : (p s t : String) → strip_prefix p s ≡ some t → s ≡ append p t
unfolding strip_prefix
strip_prefix-eq-some [] s t h = same_some s t h ∙ sym (nil-append t)
strip_prefix-eq-some (c ∷ p) [] t h = cc
strip_prefix-eq-some (c ∷ p) (d ∷ s) t h = elim (Bool-cases (eqb (code c) (code d))) [
  | inr other ↦ cc (rw other at h)
  | inl same ↦ cc (
    strip_prefix-eq-some p s t (rw same at h),
    Char-path c d ((eqb_iff (code c) (code d)).0 same),
    cons-append c p t,
  )
]

strip_prefix-append : (p t : String) → strip_prefix p (append p t) ≡ some t
unfolding strip_prefix
strip_prefix-append [] t = rw nil-append refl
strip_prefix-append (c ∷ p) t =
    rw (cons-append, strip_prefix)
      (rw ((eqb_iff (code c) (code c)).1 refl) (strip_prefix-append p t))

read_entry-Readable :
    (token : String) (f : Option Bool) (t : Option String) (b : Bool)
    → read_entry token f t ≡ ok b
    → Readable f t
read_entry-Readable token none t b h = cc
read_entry-Readable token (some false) t b h = tt
read_entry-Readable token (some true) none b h = cc
read_entry-Readable token (some true) (some text) b h = tt

read_entry_lem :
    (token : String) (f : Option Bool) (t : Option String)
    → Readable f t
    → read_entry token f t ≡ ok (names_token token f t)
read_entry_lem token none t h = absurd h
read_entry_lem token (some false) t h = refl
read_entry_lem token (some true) none h = absurd h
read_entry_lem token (some true) (some text) h = refl

authorized_from-IsReadable :
    (token : String) (matched b : Bool) (entries : List CredentialEntry)
    → authorized_from token matched entries ≡ ok b
    → All IsReadable entries
unfolding authorized_from
authorized_from-IsReadable token matched b List.[] h = tt
authorized_from-IsReadable token matched b (List.◌∷◌ entry entries) h =
    let (found, read, rest) = >>=-eq-ok (read_entry token entry.is_file entry.text) _ h in
    (
      read_entry-Readable token entry.is_file entry.text found read,
      authorized_from-IsReadable token (matched || found) b entries rest,
    )

authorized_from_lem :
    (token : String) (matched : Bool) (entries : List CredentialEntry)
    → All IsReadable entries
    → authorized_from token matched entries ≡ ok (matched || any (is_credential token) entries)
unfolding authorized_from
authorized_from_lem token matched List.[] h = ground arith
authorized_from_lem token matched (List.◌∷◌ entry entries) h =
    rw (read_entry_lem token entry.is_file entry.text h.0) (
      authorized_from_lem token (matched || is_credential token entry) entries h.1
      ∙ ap (λ (b : Bool). ok b) (ground arith))

unwrap-eq-true : (r : Result Bool) → unwrap r ≡ true → r ≡ ok true
unwrap-eq-true (ok b) h = ap (λ (c : Bool). ok c) h
unwrap-eq-true (err e) h = cc

-- The header carries a bearer token, every entry of the directory can be read, and one of them is a
-- file with this token.
abbrev pub Admits : Option String → Option (List CredentialEntry) → Type 0
Admits header directory =
    (token : String) × (entries : List CredentialEntry) × (header ≡ some (append "Bearer " token))
    × (directory ≡ some entries)
    × All IsReadable entries
    × (any (is_credential token) entries ≡ true)

accepted_token-Admits :
    (header token : String) (directory : Option (List CredentialEntry))
    → header ≡ append "Bearer " token
    → accepted_token directory (some token) ≡ true
    → Admits (some header) directory
unfolding check_token
accepted_token-Admits header token none e h = cc
accepted_token-Admits header token (some entries) e h =
    let done = unwrap-eq-true (authorized_from token false entries) h in
    let readable = authorized_from-IsReadable token false true entries done in
    (
      token,
      entries,
      ap (λ (s : String). some s) e,
      refl,
      readable,
      ok-injective _ true (sym (authorized_from_lem token false entries readable) ∙ done),
    )

authorized-Admits :
    (header : Option String) (directory : Option (List CredentialEntry))
    → authorized header directory ≡ true
    → Admits header directory
unfolding authorized
authorized-Admits none directory h = cc
authorized-Admits (some header) directory h = elim (Option-cases (strip_prefix "Bearer " header)) [
  | inl other ↦ cc (rw other at h)
  | inr (token, prefix) ↦
      accepted_token-Admits header token directory
        (strip_prefix-eq-some "Bearer " header token prefix) (rw prefix at h)
]

-- Where all entries can be read, a bearer token is let through exactly when a file has it.
pub authorized-bearer :
    (token : String) (entries : List CredentialEntry)
    → All IsReadable entries
    → authorized (some (append "Bearer " token)) (some entries) ≡ any (is_credential token) entries
unfolding authorized check_token
authorized-bearer token entries readable =
    rw (strip_prefix-append "Bearer " token)
      (rw (authorized_from_lem token false entries readable) refl)

authorized_of_Admits :
    (header : Option String) (directory : Option (List CredentialEntry))
    → Admits header directory
    → authorized header directory ≡ true
authorized_of_Admits header directory (token, entries, e, e', readable, known) =
    rw (e, e') (authorized-bearer token entries readable ∙ known)

-- A request is let through exactly when its header is a bearer token, the credential directory and
-- every entry of it can be read, and the trimmed text of some file in it is the token and is not
-- empty.
pub authorized_iff :
    (header : Option String) (directory : Option (List CredentialEntry))
    → (authorized header directory ≡ true) ↔ Admits header directory
authorized_iff header directory =
    (authorized-Admits header directory, authorized_of_Admits header directory)
