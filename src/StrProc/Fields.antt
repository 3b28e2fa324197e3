-- ===== src/StrProc/Fields.antt =====
-- The whole constructor of StrProc (src/server/rl_str_proc.cc), and that fields written with a
-- separator come back from it.
use vyatta_rest.Prelude.{
  ℕ, suc, ◌≡◌, ◌≢◌, refl, sym, ap, ◌∙◌, false, List, [], ◌∷◌, ◌++◌, some, arith, length,
  append_assoc, append-nil, All,
}
use vyatta_rest.Text.{Str, codes, starts_with, rfind}
use vyatta_rest.Text.Find.{Lacks, Lacks-append, find-Lacks, find-skip}
use vyatta_rest.Outcome.{done}
use vyatta_rest.Rest.Replace.{
  Replaces, end, keep, hit, replace_byte, mass_replace-byte, replace_at-append,
}
use vyatta_rest.Rest.Unique.{Replaces-unique}
use vyatta_rest.Rest.{mass_replace, replace_loop}
use vyatta_rest.StrProc.{str_proc, remove_newline}
use vyatta_rest.StrProc.Marks.{marked}
use vyatta_rest.StrProc.Newline.{Unlined, remove_newline-Unlined}
use vyatta_rest.StrProc.Pieces.{runs, flush, split_loop-runs}

abbrev pub expand_tabs : Str → Str
expand_tabs = replace_byte b'\t' (codes "    ")

tab_loop :
    (s : Str)
    → replace_loop (suc (length s)) (codes "\t") (codes "    ") 4 s 0 ≡ done (expand_tabs s)
unfolding mass_replace
tab_loop s = mass_replace-byte s (codes "    ") b'\t'

str_proc_marked :
    (s : Str) (c : ℕ) (p : Str)
    → c ≢ b'~'
    → (t : Str) × (str_proc s (c ∷ p) ≡ done (runs [] t))
      × Replaces (c ∷ p) (codes "~") (remove_newline (expand_tabs s)) t
unfolding str_proc
str_proc_marked s c p ne =
    let (t, e, h) = marked c p ne (remove_newline (expand_tabs s)) in
    (t, rw (tab_loop s) (rw e (split_loop-runs (suc (length t)) t (omega arith))), h)

-- With a token that is not empty and does not begin with '~', the constructor ends, and its pieces
-- are the runs between the '~' of a text `t`: the given text with four spaces for each tab, then
-- without its newline if it has exactly one, and then with '~' for each token.
pub str_proc-runs :
    (s : Str) (c : ℕ) (p : Str)
    → c ≢ b'~'
    → (u : Str) × (t : Str) × Unlined (expand_tabs s) u
      × (str_proc s (c ∷ p) ≡ done (runs [] t))
      × Replaces (c ∷ p) (codes "~") u t
str_proc-runs s c p ne =
    let (t, e, h) = str_proc_marked s c p ne in
    (remove_newline (expand_tabs s), t, remove_newline-Unlined (expand_tabs s), e, h)

-- No occurrence of `v` starts inside the text, whatever follows it.
abbrev pub NoStart : Str → Str → Type 0
NoStart v [] = Unit
NoStart v (x ∷ s) = ((t : Str) → starts_with v (x ∷ s ++ t) ≡ false) × NoStart v s

pub NoStart-append : (v s t : Str) → NoStart v s → NoStart v t → NoStart v (s ++ t)
NoStart-append v [] t h k = k
NoStart-append v (x ∷ s) t h k = (λ u. rw append_assoc (h.0 (t ++ u)), NoStart-append v s t h.1 k)

pub NoStart-Lacks : (c : ℕ) (p s : Str) → Lacks c s → NoStart (c ∷ p) s
unfolding starts_with
NoStart-Lacks c p [] h = tt
NoStart-Lacks c p (x ∷ s) h = (λ t. ground arith, NoStart-Lacks c p s h.1)

-- A field that the separator `v` can delimit.
pub record IsField (v f : Str) : Type 0 where
  pub not_empty : f ≢ []
  pub no_start : NoStart v f
  pub no_tilde : Lacks b'~' f
  pub no_tab : Lacks b'\t' f
  pub no_newline : Lacks b'\n' f

-- Fields with the separator between them, and with the separator behind each.
abbrev pub join : Str → List Str → Str
join v [] = []
join v (f ∷ []) = f
join v (f ∷ g ∷ fs) = f ++ (v ++ join v (g ∷ fs))

abbrev pub terminated : Str → List Str → Str
terminated v [] = []
terminated v (f ∷ fs) = f ++ (v ++ terminated v fs)

Replaces-NoStart :
    {v r s t : Str} (f : Str) → NoStart v f → Replaces v r s t → Replaces v r (f ++ s) (f ++ t)
Replaces-NoStart [] n h = h
Replaces-NoStart {s = s} (x ∷ f) n h = keep x (n.0 s) (Replaces-NoStart f n.1 h)

Replaces-join :
    (v r : Str) (fs : List Str) → All (NoStart v) fs → Replaces v r (join v fs) (join r fs)
Replaces-join v r [] h = end
Replaces-join v r (f ∷ []) h = rw (← append-nil f) (Replaces-NoStart f h.0 end)
Replaces-join v r (f ∷ g ∷ fs) h = Replaces-NoStart f h.0 (hit (Replaces-join v r (g ∷ fs) h.1))

Replaces-terminated :
    (v r : Str) (fs : List Str)
    → All (NoStart v) fs
    → Replaces v r (terminated v fs) (terminated r fs)
Replaces-terminated v r [] h = end
Replaces-terminated v r (f ∷ fs) h = Replaces-NoStart f h.0 (hit (Replaces-terminated v r fs h.1))

runs-Lacks : (f piece s : Str) → Lacks b'~' f → runs piece (f ++ s) ≡ runs (piece ++ f) s
unfolding runs
runs-Lacks [] piece s h = rw append-nil
runs-Lacks (x ∷ f) piece s h =
    ground (arith, runs-Lacks f (piece ++ x ∷ []) s h.1, append_assoc piece (x ∷ []) f)

flush_field : (f : Str) → f ≢ [] → flush f ≡ f ∷ []
flush_field [] h = absurd (h refl)
flush_field (x ∷ f) h = refl

runs_field : (f s : Str) → f ≢ [] → Lacks b'~' f → runs [] (f ++ (b'~' ∷ s)) ≡ f ∷ runs [] s
unfolding runs
runs_field f s ne h = runs-Lacks f [] (b'~' ∷ s) h ∙ rw (flush_field f ne)

runs_last : (f : Str) → f ≢ [] → Lacks b'~' f → runs [] f ≡ f ∷ []
unfolding runs
runs_last f ne h = ap (runs []) (sym (append-nil f)) ∙ runs-Lacks f [] [] h ∙ flush_field f ne

module _ (v : Str) where
  runs-join : (fs : List Str) → All (IsField v) fs → runs [] (join (codes "~") fs) ≡ fs
  unfolding runs
  runs-join [] h = refl
  runs-join (f ∷ []) h = runs_last f h.0.not_empty h.0.no_tilde
  runs-join (f ∷ g ∷ fs) h =
      runs_field f (join (codes "~") (g ∷ fs)) h.0.not_empty h.0.no_tilde
      ∙ ap (◌∷◌ f) (runs-join (g ∷ fs) h.1)

  runs-terminated : (fs : List Str) → All (IsField v) fs → runs [] (terminated (codes "~") fs) ≡ fs
  unfolding runs
  runs-terminated [] h = refl
  runs-terminated (f ∷ fs) h =
      runs_field f (terminated (codes "~") fs) h.0.not_empty h.0.no_tilde
      ∙ ap (◌∷◌ f) (runs-terminated fs h.1)

  Lacks-join : (c : ℕ) (fs : List Str) → Lacks c v → All (Lacks c) fs → Lacks c (join v fs)
  Lacks-join c [] h k = tt
  Lacks-join c (f ∷ []) h k = k.0
  Lacks-join c (f ∷ g ∷ fs) h k =
      Lacks-append c f (v ++ join v (g ∷ fs)) k.0
        (Lacks-append c v (join v (g ∷ fs)) h (Lacks-join c (g ∷ fs) h k.1))

  Lacks-terminated :
      (c : ℕ) (fs : List Str) → Lacks c v → All (Lacks c) fs → Lacks c (terminated v fs)
  Lacks-terminated c [] h k = tt
  Lacks-terminated c (f ∷ fs) h k =
      Lacks-append c f (v ++ terminated v fs) k.0
        (Lacks-append c v (terminated v fs) h (Lacks-terminated c fs h k.1))

pub All-weaken {ℓ κ} :
    {A : Type ℓ} {P Q : A → Type κ} (xs : List A) → ((x : A) → P x → Q x) → All P xs → All Q xs
All-weaken [] f h = tt
All-weaken (x ∷ xs) f h = (f x h.0, All-weaken xs f h.1)

expand_tabs-Lacks : (s : Str) → Lacks b'\t' s → expand_tabs s ≡ s
expand_tabs-Lacks [] h = refl
expand_tabs-Lacks (x ∷ s) h = ground (arith, expand_tabs-Lacks s h.1)

remove_newline-Lacks : (s : Str) → Lacks b'\n' s → remove_newline s ≡ s
unfolding remove_newline
remove_newline-Lacks s h = rw (find-Lacks b'\n' [] s h)

rfind_last : (c : ℕ) (s : Str) → rfind c (s ++ c ∷ []) ≡ some (length s)
unfolding rfind
rfind_last c [] = ground arith
rfind_last c (x ∷ s) = rw (rfind_last c s)

-- The newline that ends a line is taken off.
remove_newline_end : (s : Str) → Lacks b'\n' s → remove_newline (s ++ b'\n' ∷ []) ≡ s
unfolding remove_newline
remove_newline_end s h =
    rw (find-skip b'\n' [] s [] h, rfind_last b'\n' s)
      (rw (replace_at-append s (b'\n' ∷ []) [] []) (ground (arith, append-nil s)))

-- The constructor on a text whose marked form is known.
str_proc_of :
    (s u t : Str) (c : ℕ) (p : Str)
    → c ≢ b'~'
    → remove_newline (expand_tabs s) ≡ u
    → Replaces (c ∷ p) (codes "~") u t
    → str_proc s (c ∷ p) ≡ done (runs [] t)
str_proc_of s u t c p ne e h =
    let (t', q, h') = str_proc_marked s c p ne in
    q ∙ ap (λ z. done (runs [] z)) (Replaces-unique (λ z. cc) h' h e)

module _ (c : ℕ) (p : Str) (ne : c ≢ b'~') (tabs : Lacks b'\t' (c ∷ p))
    (lines : Lacks b'\n' (c ∷ p)) where
  -- Fields written with the separator behind each come back. The separator does not begin with '~'
  -- and has no tab or newline; each field is not empty, has no '~', tab or newline, and no occurrence
  -- of the separator starts inside it.
  pub str_proc-terminated :
      (fs : List Str)
      → All (IsField (c ∷ p)) fs
      → str_proc (terminated (c ∷ p) fs) (c ∷ p) ≡ done fs
  str_proc-terminated fs h =
      let s = terminated (c ∷ p) fs in
      str_proc_of s s (terminated (codes "~") fs) c p ne
        (rw
          (expand_tabs-Lacks s
            (Lacks-terminated (c ∷ p) b'\t' fs tabs (All-weaken fs (λ f k. k.no_tab) h)))
          (remove_newline-Lacks s
            (Lacks-terminated (c ∷ p) b'\n' fs lines (All-weaken fs (λ f k. k.no_newline) h))))
        (Replaces-terminated (c ∷ p) (codes "~") fs (All-weaken fs (λ f k. k.no_start) h))
      ∙ ap done (runs-terminated (c ∷ p) fs h)

  -- Fields joined by the separator, as a line that a newline ends, come back, on the same conditions:
  -- the separator does not begin with '~' and has no tab or newline, and each field is not empty, has
  -- none of these bytes, and holds no start of a separator.
  pub str_proc_line :
      (fs : List Str)
      → All (IsField (c ∷ p)) fs
      → str_proc (join (c ∷ p) fs ++ b'\n' ∷ []) (c ∷ p) ≡ done fs
  str_proc_line fs h =
      let s = join (c ∷ p) fs in
      let no_tabs = Lacks-join (c ∷ p) b'\t' fs tabs (All-weaken fs (λ f k. k.no_tab) h) in
      let no_lines = Lacks-join (c ∷ p) b'\n' fs lines (All-weaken fs (λ f k. k.no_newline) h) in
      str_proc_of (s ++ b'\n' ∷ []) s (join (codes "~") fs) c p ne
        (rw
          (expand_tabs-Lacks (s ++ b'\n' ∷ [])
            (Lacks-append b'\t' s (b'\n' ∷ []) no_tabs (omega arith, tt)))
          (remove_newline_end s no_lines))
        (Replaces-join (c ∷ p) (codes "~") fs (All-weaken fs (λ f k. k.no_start) h))
      ∙ ap done (runs-join (c ∷ p) fs h)

  -- Fields joined by the separator come back, where the separator does not begin with '~' and has no
  -- tab or newline, and each field is not empty, has no '~', tab or newline, and has no position at
  -- which the separator starts, whatever follows the field.
  pub str_proc-join :
      (fs : List Str) → All (IsField (c ∷ p)) fs → str_proc (join (c ∷ p) fs) (c ∷ p) ≡ done fs
  str_proc-join fs h =
      let s = join (c ∷ p) fs in
      str_proc_of s s (join (codes "~") fs) c p ne
        (rw
          (expand_tabs-Lacks s
            (Lacks-join (c ∷ p) b'\t' fs tabs (All-weaken fs (λ f k. k.no_tab) h)))
          (remove_newline-Lacks s
            (Lacks-join (c ∷ p) b'\n' fs lines (All-weaken fs (λ f k. k.no_newline) h))))
        (Replaces-join (c ∷ p) (codes "~") fs (All-weaken fs (λ f k. k.no_start) h))
      ∙ ap done (runs-join (c ∷ p) fs h)
