-- ===== src/Rest/Modify/Found.antt =====
-- What the modify files of src/server/common.cc hold: a file that was created is read back, and a
-- description is looked up for its owner only.
use vyatta_rest.Prelude.{
  ℕ, zero, suc, ◌+◌, ◌-◌, ◌<◌, ◌≤◌, ◌≡◌, ◌≢◌, refl, ap, sym, subst, ◌∙◌, Bool, true, false, List,
  [], ◌∷◌, ◌++◌, Option, none, some, arith, length, drop, ltb, if◌then◌else◌, length-append,
  take-length, drop-length, append_assoc, Bool-cases, inl, inr, All, cases_if,
}
use vyatta_rest.Text.{c_str, Str, empty, str_eq}
use vyatta_rest.Text.Find.{Lacks, find-skip, str_eq_iff, str_eq_refl}
use vyatta_rest.Rest.Keys.{chunker_read_size}
use vyatta_rest.Rest.Modify.{
  TmpDir, or_false, opened, fgets, put_file, create_conf_modify_file, split_owner, read_text,
  read_conf_modify_file, tagged, from_tag_loop, read_conf_modify_file_from_tag,
}

fgets-Lacks : (n : ℕ) (s : Str) → Lacks b'\n' s → length s ≤ n → fgets n s ≡ s
unfolding fgets
fgets-Lacks zero [] l h = refl
fgets-Lacks zero (x ∷ s) l h = absurd (omega arith)
fgets-Lacks (suc n) [] l h = refl
fgets-Lacks (suc n) (x ∷ s) l h = ground (arith, fgets-Lacks n s l.1)

pub c_str-Lacks : (s : Str) → Lacks 0 s → c_str s ≡ s
unfolding c_str
c_str-Lacks [] l = refl
c_str-Lacks (zero ∷ s) l = absurd (l.0 refl)
c_str-Lacks (suc x ∷ s) l = ap (λ t. suc x ∷ t) (c_str-Lacks s l.1)

split_owner-join :
    (user t : Str) → Lacks b'/' user → split_owner (user ++ b'/' ∷ t) ≡ some (user, t)
unfolding split_owner
split_owner-join user t l =
    rw (split_owner, find-skip b'/' [] user t l)
      (ap some (
        ap (λ a. (a, drop (length user + 1) (user ++ b'/' ∷ t))) (take-length user (b'/' ∷ t))
        ∙ ap (λ b. (user, b))
            (ap (λ s. drop (length user + 1) s) (sym (append_assoc user (b'/' ∷ []) t))
              ∙ ap (λ k. drop k ((user ++ b'/' ∷ []) ++ t))
                  (omega (arith, length-append user (b'/' ∷ [])))
              ∙ drop-length (user ++ b'/' ∷ []) t)))

-- A user and a description that a modify file can carry: one line of text that fits the buffer.
abbrev pub Carried : Str → Str → Type 0
Carried user t =
    Lacks b'/' user
    × Lacks b'\n' (user ++ b'/' ∷ t)
    × Lacks 0 (user ++ b'/' ∷ t)
    × (length (user ++ b'/' ∷ t) < chunker_read_size)

empty-join : (user t : Str) → empty (user ++ b'/' ∷ t) ≡ false
empty-join [] t = refl
empty-join (x ∷ user) t = refl

pub read_text-join :
    (u0 t0 user t : Str) → Carried user t → read_text u0 t0 (user ++ b'/' ∷ t) ≡ (true, user, t)
unfolding read_text
read_text-join u0 t0 user t (l, n, z, h) = rw (
  read_text,
  fgets-Lacks (chunker_read_size - 1) (user ++ b'/' ∷ t) n (omega arith),
  empty-join user t,
  c_str-Lacks (user ++ b'/' ∷ t) z,
  split_owner-join user t l,
)

pub not_same : (a b : Str) → a ≢ b → str_eq a b ≡ false
not_same a b ne = ground (arith, str_eq_iff a b)

-- When fopen and fputs succeed for the id, creating a modify file of a user with no '/' succeeds,
-- and reading it gives that user and that description, whatever the arguments held before, if the
-- line they make has no newline and no NUL and fits the buffer; the files of other ids read as
-- before.
pub read-create :
    (d : TmpDir) (id user t : Str)
    → d.writable id ≡ true
    → d.puts id ≡ true
    → Carried user t
    → (d' : TmpDir) × (create_conf_modify_file id user t d ≡ (true, d'))
      × ((u0 t0 : Str) → read_conf_modify_file d' id u0 t0 ≡ (true, user, t))
      × ((j u0 t0 : Str)
          → j ≢ id
          → read_conf_modify_file d' j u0 t0 ≡ read_conf_modify_file d j u0 t0)
unfolding create_conf_modify_file read_conf_modify_file put_file
read-create d id user t w p c = (
  put_file id (user ++ b'/' ∷ t) d,
  rw (create_conf_modify_file, w, p),
  (λ u0 t0. rw (str_eq_refl id) (read_text-join u0 t0 user t c)),
  λ j u0 t0 ne. rw (not_same id j (λ e. ne (sym e))),
)

-- The modify file of `id` names the user, and the description, which is not empty.
abbrev pub Owned : TmpDir → Str → Str → Str → Type 0
Owned d user tag id =
    (ok : Bool) × (read_conf_modify_file d id [] [] ≡ (ok, user, tag)) × (tag ≢ [])

abbrev pub Skipped : TmpDir → Str → Str → Str → Type 0
Skipped d user tag name = 22 ≤ length name → ¬ Owned d user tag (drop 14 name)

-- The id of the first name whose modify file has the user and the description, if there is one.
abbrev pub Looked : TmpDir → Str → Str → List Str → Option Str → Type 0
Looked d user tag names none = All (Skipped d user tag) names
Looked d user tag names (some id) =
    (before : List Str) × (name : Str) × (after : List Str) × (names ≡ before ++ name ∷ after)
    × All (Skipped d user tag) before
    × (22 ≤ length name)
    × (id ≡ drop 14 name)
    × Owned d user tag id

tagged-Owned :
    (tag user : Str) (r : Bool × Str × Str)
    → tagged tag user r ≡ true
    → (ok : Bool) × (r ≡ (ok, user, tag)) × (tag ≢ [])
unfolding tagged
tagged-Owned tag user (ok, u, []) h = absurd cc
tagged-Owned tag user (ok, u, x ∷ t) h =
    let e : tag ≡ x ∷ t = ground (arith, str_eq_iff tag (x ∷ t)) in
    let e' : u ≡ user = ground (arith, str_eq_iff u user) in (ok, cc, λ k. cc)

pub Owned-tagged :
    (tag user : Str) (r : Bool × Str × Str)
    → (k : Bool) → r ≡ (k, user, tag)
    → tag ≢ []
    → tagged tag user r ≡ true
unfolding tagged
Owned-tagged tag user (ok, u, []) k e ne = absurd (ne cc)
Owned-tagged tag user (ok, u, x ∷ t) k e ne =
    let e' : x ∷ t ≡ tag = cc in
    let f : u ≡ user = cc in rw (sym e', f, str_eq_refl (x ∷ t), str_eq_refl user)

Looked-skip :
    (d : TmpDir) (user tag name : Str) (names : List Str)
    → Skipped d user tag name
    → (o : Option Str) → Looked d user tag names o
    → Looked d user tag (name ∷ names) o
Looked-skip d user tag name names s none l = (s, l)
Looked-skip d user tag name names s (some id) (before, n, after, e, a, l, q, w) =
    (name ∷ before, n, after, ap (λ l. name ∷ l) e, (s, a), l, q, w)

from_tag_loop-Looked :
    (d : TmpDir) (user tag : Str) (names : List Str)
    → Looked d user tag names (from_tag_loop d tag user names)
unfolding from_tag_loop
from_tag_loop-Looked d user tag [] = tt
from_tag_loop-Looked d user tag (name ∷ names) =
    let rest = from_tag_loop-Looked d user tag names in
    let r = read_conf_modify_file d (drop 14 name) [] [] in
    cases_if (Looked d user tag (name ∷ names)) (ltb (length name) 22)
      (λ h. Looked-skip d user tag name names (λ k. absurd (ground arith)) _ rest)
      (λ h.
        cases_if (Looked d user tag (name ∷ names)) (tagged tag user r)
          (λ t. ([], name, names, refl, tt, ground arith, refl, tagged-Owned tag user r t))
          (λ t.
            Looked-skip d user tag name names
              (λ k (ok, e, ne). let e' = Owned-tagged tag user r ok e ne in cc) _ rest))

-- Where the directory can be opened, the lookup of a description gives the id of the first file
-- name of at least 22 bytes whose modify file names that user and that description, and nothing
-- exactly when there is none; an empty description is never found.
pub from_tag-Looked :
    (d : TmpDir) (user tag : Str)
    → d.opens ≡ true
    → Looked d user tag d.names (read_conf_modify_file_from_tag d tag user)
unfolding read_conf_modify_file_from_tag
from_tag-Looked d user tag h =
    subst (λ b. Looked d user tag d.names (if b then from_tag_loop d tag user d.names else none))
      (sym h) (from_tag_loop-Looked d user tag d.names)

-- The modify file of `id` is readable, and names the user or nobody.
abbrev pub Mine : TmpDir → Str → Str → Type 0
Mine d user id = (t : Str) × (read_conf_modify_file d id user [] ≡ (true, user, t))

or_false-Mine :
    (o : Option (Str × Str)) (u0 t0 user t : Str)
    → or_false u0 t0 o ≡ (true, user, t)
    → or_false user [] o ≡ (true, user, t)
unfolding or_false
or_false-Mine none u0 t0 user t h = absurd cc
or_false-Mine (some (a, b)) u0 t0 user t h = h

read_text-Mine :
    (text u0 t0 user t : Str)
    → read_text u0 t0 text ≡ (true, user, t)
    → (t' : Str) × (read_text user [] text ≡ (true, user, t'))
unfolding read_text
read_text-Mine text u0 t0 user t h =
    let line = fgets (chunker_read_size - 1) text in
    elim (Bool-cases (empty line)) [
      | inl e ↦ ([], rw (read_text, e))
      | inr e ↦ (
        t,
        rw (read_text, e)
            (or_false-Mine (split_owner (c_str line)) u0 t0 user t (rw (read_text, e) at h)),
      )
    ]

opened-Mine :
    (o : Option Str) (u0 t0 user t : Str)
    → opened u0 t0 o ≡ (true, user, t)
    → (t' : Str) × (opened user [] o ≡ (true, user, t'))
unfolding opened
opened-Mine none u0 t0 user t h = absurd cc
opened-Mine (some text) u0 t0 user t h = read_text-Mine text u0 t0 user t h

-- What the arguments hold before does not matter to whose file it is.
pub read-Mine :
    (d : TmpDir) (id u0 t0 user t : Str)
    → read_conf_modify_file d id u0 t0 ≡ (true, user, t)
    → Mine d user id
unfolding read_conf_modify_file
read-Mine d id u0 t0 user t h = opened-Mine (d.content id) u0 t0 user t h

or_false-false :
    (o : Option (Str × Str)) (user t : Str) → or_false [] [] o ≡ (false, user, t) → t ≡ []
unfolding or_false
or_false-false none user t h = cc
or_false-false (some (a, b)) user t h = absurd cc

read_text-false : (text user t : Str) → read_text [] [] text ≡ (false, user, t) → t ≡ []
unfolding read_text
read_text-false text user t h =
    let line = fgets (chunker_read_size - 1) text in
    elim (Bool-cases (empty line)) [
      | inl e ↦
          let k : Path (Bool × Str × Str) (true, [], []) (false, user, t) =
            rw (read_text, e) at h in
          cc
      | inr e ↦ or_false-false (split_owner (c_str line)) user t (rw (read_text, e) at h)
    ]

opened-false : (o : Option Str) (user t : Str) → opened [] [] o ≡ (false, user, t) → t ≡ []
unfolding opened
opened-false none user t h = cc
opened-false (some text) user t h = read_text-false text user t h

Owned-Mine : (d : TmpDir) (user tag id : Str) → Owned d user tag id → Mine d user id
unfolding read_conf_modify_file
Owned-Mine d user tag id (true, h, ne) = read-Mine d id [] [] user tag h
Owned-Mine d user tag id (false, h, ne) = absurd (ne (opened-false (d.content id) user tag h))

Looked-Mine :
    (d : TmpDir) (user tag : Str) (names : List Str) (o : Option Str)
    → Looked d user tag names o
    → (id : Str) → o ≡ some id
    → Mine d user id
Looked-Mine d user tag names none l id e = absurd cc
Looked-Mine d user tag names (some x) (before, n, after, q, a, l, k, w) id e =
    subst (λ i. Mine d user i) (let q : x ≡ id = cc in q) (Owned-Mine d user tag x w)

-- A description that is looked up leads to a file of the user.
pub from_tag-Mine :
    (d : TmpDir) (user tag id : Str)
    → read_conf_modify_file_from_tag d tag user ≡ some id
    → Mine d user id
unfolding read_conf_modify_file_from_tag
from_tag-Mine d user tag id e = elim (Bool-cases d.opens) [
  | inl h ↦ Looked-Mine d user tag d.names _ (from_tag-Looked d user tag h) id e
  | inr h ↦
      let k : none ≡ some id =
        (sym (ap (λ b. if b then from_tag_loop d tag user d.names else none) h) ∙ e) in
      absurd cc
]
