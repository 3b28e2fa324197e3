-- ===== src/Tests/Words.antt =====
-- Which bytes a text has, as a test, for the inputs of the other files.
use vyatta_rest.Prelude.{ℕ, ◌≡◌, ◌≢◌, Bool, false, ◌||◌, [], ◌∷◌, ◌==◌, arith}
use vyatta_rest.Text.{Str}
use vyatta_rest.Text.Find.{Lacks}
use vyatta_rest.StrProc.Fields.{IsField, NoStart-Lacks}
use vyatta_rest.MultiResp.Listing.{IsWord}

abbrev pub has : ℕ → Str → Bool
has c [] = false
has c (x ∷ s) = x == c || has c s

pub Lacks-has : (c : ℕ) (s : Str) → has c s ≡ false → Lacks c s
Lacks-has c [] h = tt
Lacks-has c (x ∷ s) h = (ground (arith, h), Lacks-has c s (ground (arith, h)))

abbrev pub has_mark : Str → Bool
has_mark f = has b'~' f || has b'\t' f || has b'\n' f

pub field : (c : ℕ) (p f : Str) → f ≢ [] → has c f ≡ false → has_mark f ≡ false → IsField (c ∷ p) f
field c p f ne h m = record {
  not_empty = ne;
  no_start = NoStart-Lacks c p f (Lacks-has c f h);
  no_tilde = Lacks-has b'~' f (ground (arith, m));
  no_tab = Lacks-has b'\t' f (ground (arith, m));
  no_newline = Lacks-has b'\n' f (ground (arith, m));
}

pub word : (f : Str) → f ≢ [] → has b'%' f ≡ false → has_mark f ≡ false → IsWord f
word f ne h m = record {
  not_empty = ne;
  no_percent = Lacks-has b'%' f h;
  no_tilde = Lacks-has b'~' f (ground (arith, m));
  no_tab = Lacks-has b'\t' f (ground (arith, m));
  no_newline = Lacks-has b'\n' f (ground (arith, m));
}
