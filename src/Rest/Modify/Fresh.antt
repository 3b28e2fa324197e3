-- ===== src/Rest/Modify/Fresh.antt =====
-- A description that was not in use is found once its modify file has been created
-- (src/server/common.cc).
use vyatta_rest.Prelude.{
  ◌≡◌, ◌≢◌, refl, ap, sym, ◌∙◌, Bool, true, false, List, [], ◌∷◌, ◌++◌, Option, none, some, arith,
  length, drop, ltb, if◌then◌else◌, Bool-cases, inl, inr, cases_if,
}
use vyatta_rest.Text.{Str, str_eq}
use vyatta_rest.Text.Find.{str_eq_iff, str_eq_refl}
use vyatta_rest.Rest.Modify.{
  TmpDir, modify_name, put_file, create_conf_modify_file, read_conf_modify_file, tagged,
  from_tag_loop, read_conf_modify_file_from_tag,
}
use vyatta_rest.Rest.Modify.Found.{Carried, Owned-tagged, read_text-join}

passed :
    {A : Type 0} (b c : Bool) (x : A) (o : Option A)
    → (if b then o else if c then some x else o) ≡ none
    → (b ≡ false → c ≡ false) × (o ≡ none)
passed true c x o h = ((λ k. cc), h)
passed false true x o h = absurd cc
passed false false x o h = ((λ k. refl), h)

module _ (d : TmpDir) (id user t : Str) (c : Carried user t) (ne : t ≢ []) where
  -- The directory with the new file.
  abbrev pub with_file : TmpDir
  with_file = put_file id (user ++ b'/' ∷ t) d

  pub read_new : (u0 t0 : Str) → read_conf_modify_file with_file id u0 t0 ≡ (true, user, t)
  unfolding read_conf_modify_file put_file
  read_new u0 t0 = rw (str_eq_refl id) (read_text-join u0 t0 user t c)

  read_old :
      (j u0 t0 : Str)
      → str_eq id j ≡ false
      → read_conf_modify_file with_file j u0 t0 ≡ read_conf_modify_file d j u0 t0
  unfolding read_conf_modify_file put_file
  read_old j u0 t0 h = rw h

  tagged_new : tagged t user (read_conf_modify_file with_file id [] []) ≡ true
  tagged_new = Owned-tagged t user _ true (read_new [] []) ne

  tagged_old :
      (j : Str)
      → str_eq id j ≡ false
      → tagged t user (read_conf_modify_file d j [] []) ≡ false
      → tagged t user (read_conf_modify_file with_file j [] []) ≡ false
  tagged_old j h k = ap (tagged t user) (read_old j [] [] h) ∙ k

  -- A name that the description was not found at, or behind which the new id stands.
  found_or_rest :
      (name : Str) (names : List Str)
      → (ltb (length name) 22 ≡ false
          → tagged t user (read_conf_modify_file d (drop 14 name) [] []) ≡ false)
      → from_tag_loop with_file t user names ≡ some id
      → from_tag_loop with_file t user (name ∷ names) ≡ some id
  unfolding from_tag_loop
  found_or_rest name names h rest =
      let P : Option Str → Type 0 = λ o. o ≡ some id in
      cases_if P (ltb (length name) 22) (λ k. rest)
        (λ k.
          cases_if P (tagged t user (read_conf_modify_file with_file (drop 14 name) [] []))
            (λ g. elim (Bool-cases (str_eq id (drop 14 name))) [
              | inl e ↦ ap some (sym ((str_eq_iff id (drop 14 name)).0 e))
              | inr e ↦ absurd (let n = tagged_old (drop 14 name) e (h k) in cc)
            ])
            (λ g. rest))

  -- Behind the names that the description was not found at, the new name gives the id.
  from_tag_loop-fresh :
      (names : List Str)
      → length id ≡ 16
      → from_tag_loop d t user names ≡ none
      → from_tag_loop with_file t user (names ++ modify_name id ∷ []) ≡ some id
  unfolding from_tag_loop
  from_tag_loop-fresh [] l h =
      cases_if (λ o. o ≡ some id) (ltb (length (modify_name id)) 22) (λ k. absurd (ground arith))
        (λ k. rw tagged_new)
  from_tag_loop-fresh (name ∷ names) l h =
      let (u, n) =
        passed (ltb (length name) 22) (tagged t user (read_conf_modify_file d (drop 14 name) [] []))
          (drop 14 name) (from_tag_loop d t user names) h in
      found_or_rest name (names ++ modify_name id ∷ []) u (from_tag_loop-fresh names l n)

  pub created :
      d.writable id ≡ true
      → d.puts id ≡ true
      → create_conf_modify_file id user t d ≡ (true, with_file)
  unfolding create_conf_modify_file
  created w p = rw (create_conf_modify_file, w, p)

  opens_new : with_file.opens ≡ d.opens
  unfolding put_file
  opens_new = refl

  names_new : d.content id ≡ none → with_file.names ≡ d.names ++ modify_name id ∷ []
  unfolding put_file
  names_new z = rw z

  -- A description that the user has not given to a session is found at the id of a session that is
  -- created with it, whose file was not there. The id has 16 bytes, fopen and fputs succeed, and user
  -- and description make one line that fits the buffer.
  pub from_tag-create :
      d.opens ≡ true
      → d.content id ≡ none
      → length id ≡ 16
      → d.writable id ≡ true
      → d.puts id ≡ true
      → read_conf_modify_file_from_tag d t user ≡ none
      → read_conf_modify_file_from_tag (create_conf_modify_file id user t d).1 t user ≡ some id
  unfolding read_conf_modify_file_from_tag
  from_tag-create o z l w p h =
      let n : from_tag_loop d t user d.names ≡ none =
        sym (ap (λ b. if b then from_tag_loop d t user d.names else none) o) ∙ h in
      ap (λ r. read_conf_modify_file_from_tag r.1 t user) (created w p)
      ∙ ap (λ b. if b then from_tag_loop with_file t user with_file.names else none) (opens_new ∙ o)
      ∙ ap (from_tag_loop with_file t user) (names_new z)
      ∙ from_tag_loop-fresh d.names l n
