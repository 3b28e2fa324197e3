-- ===== src/Auth/Session/Copy.antt =====
-- What AuthSession does to the session file (src/server/authsession.cc): it purges the sessions that
-- have timed out, and refreshes the one that is used.
use vyatta_rest.Prelude.{
  ℕ, ◌+◌, ◌^◌, ◌≡◌, ◌<◌, refl, Bool, true, false, List, [], ◌∷◌, ◌++◌, ltb, append-nil, sym,
  append_assoc, ap, ◌∙◌, arith,
}
use vyatta_rest.Text.{Str, codes, str_eq}
use vyatta_rest.Text.Decimal.{decimal, strtoul-decimal, decimal-Lacks, decimal-ne-nil}
use vyatta_rest.Outcome.{Outcome, done}
use vyatta_rest.StrProc.{str_proc, get}
use vyatta_rest.StrProc.Fields.{IsField, NoStart-Lacks, join, str_proc_line}
use vyatta_rest.Http.{Session}
use vyatta_rest.Auth.Session.{
  Host, Scan, Verdict, next, after_line, on_line, scan_lines, note, updated_line, is_live,
  session_timeout, keeps_time,
}

decimal-IsField : (n : ℕ) → IsField (codes ",") (decimal n)
decimal-IsField n = record {
  not_empty = decimal-ne-nil n;
  no_start = NoStart-Lacks b',' [] (decimal n) (decimal-Lacks b',' n refl);
  no_tilde = decimal-Lacks b'~' n refl;
  no_tab = decimal-Lacks b'\t' n refl;
  no_newline = decimal-Lacks b'\n' n refl;
}

join_line :
    (a b c d e : Str)
    → a
        ++ (codes ","
            ++ (b ++ (codes "," ++ (c ++ (codes "," ++ (d ++ (codes "," ++ (e ++ codes "\n"))))))))
      ≡ join (codes ",") (a ∷ b ∷ c ∷ d ∷ e ∷ []) ++ codes "\n"
join_line a b c d e = simp append_assoc

-- The line that is written for a session that is used reads back as a line of the same key, user
-- and remaining fields, whose time is the time of its use; so the session is live for another 1800
-- seconds and no longer. The fields are not empty and hold no newline, tab, comma or tilde, the
-- request does not ask to keep the time, and the time plus 1800 is below 2^64.
pub updated_line-live :
    (now later : ℕ) (session : Session) (key user time start level : Str)
    → IsField (codes ",") key
    → IsField (codes ",") user
    → IsField (codes ",") start
    → IsField (codes ",") level
    → keeps_time session ≡ false
    → now + session_timeout < 2 ^ 64
    → (str_proc (updated_line now session (key ∷ user ∷ time ∷ start ∷ level ∷ [])) (codes ",")
        ≡ done (key ∷ user ∷ decimal now ∷ start ∷ level ∷ []))
      × (is_live later (key ∷ user ∷ decimal now ∷ start ∷ level ∷ [])
          ≡ ltb later (now + session_timeout))
unfolding updated_line is_live
updated_line-live now later session key user time start level k u st l keep small = (
  unfold updated_line in
      rw keep (
        ap (λ l. str_proc l (codes ",")) (join_line key user (decimal now) start level)
        ∙ str_proc_line b',' [] (omega arith) (omega arith, tt) (omega arith, tt)
            (key ∷ user ∷ decimal now ∷ start ∷ level ∷ [])
            (k, (u, (decimal-IsField now, (st, (l, tt)))))),
  rw (strtoul-decimal now (omega arith)) (ground arith),
)

-- The copy of lines none of which holds the key: the timed-out lines are left out.
pub data Purged (now : ℕ) (auth : Str) : List Str → List Str → Type 0 where
  at_end : Purged now auth [] []
  keeps :
      {line : Str} {lines kept : List Str} (s : List Str)
      → str_proc line (codes ",") ≡ done s
      → is_live now s ≡ true
      → str_eq (get s 0) auth ≡ false
      → Purged now auth lines kept
      → Purged now auth (line ∷ lines) (line ∷ kept)
  drops :
      {line : Str} {lines kept : List Str} (s : List Str)
      → str_proc line (codes ",") ≡ done s
      → is_live now s ≡ false
      → Purged now auth lines kept
      → Purged now auth (line ∷ lines) kept

abbrev pub Copies : List Str → Bool → Outcome Verdict → Type 0
Copies copy found o =
    (scan : Scan) × (o ≡ done (next scan)) × (scan.copy ≡ copy) × (scan.found ≡ found)

-- The line leads to a next scan with that copy, and with what was found.
abbrev Goes : Scan → List Str → Verdict → Type 0
Goes scan copy v =
    (scan' : Scan) × (v ≡ next scan') × (scan'.copy ≡ copy) × (scan'.found ≡ scan.found)

on_line-kept :
    (host : Host) (auth line : Str) (s : List Str) (scan : Scan)
    → host.can_put line ≡ true
    → is_live host.now s ≡ true
    → str_eq (get s 0) auth ≡ false
    → Goes scan (scan.copy ++ line ∷ []) (on_line host auth line s scan)
unfolding on_line
on_line-kept host auth line s scan put live key =
    let s6 = note host.debug (codes "AABs6") (note host.debug (codes "AABs5") scan.session) in
    (
      record scan { session = note host.debug (codes "AABs7") s6; copy = scan.copy ++ line ∷ [] },
      rw (live, key, put),
      refl,
      refl,
    )

on_line-dropped :
    (host : Host) (auth line : Str) (s : List Str) (scan : Scan)
    → is_live host.now s ≡ false
    → Goes scan scan.copy (on_line host auth line s scan)
unfolding on_line
on_line-dropped host auth line s scan live = (
  record scan {
    session = note host.debug (codes "AABs6") (note host.debug (codes "AABs5") scan.session);
  },
  rw live,
  refl,
  refl,
)

scan_lines-next :
    (host : Host) (auth line : Str) (lines : List Str) (s : List Str) (scan scan' : Scan)
    → str_proc line (codes ",") ≡ done s
    → on_line host auth line s scan ≡ next scan'
    → scan_lines host auth (line ∷ lines) scan ≡ scan_lines host auth lines scan'
unfolding scan_lines after_line
scan_lines-next host auth line lines s scan scan' read e = rw (read, e)

-- Where no line holds the key and every line can be written, the scan ends with the live lines
-- behind the copy, unchanged and in their order, and with nothing found that was not.
pub scan_lines-Purged :
    (host : Host) (auth : Str)
    → ((line : Str) → host.can_put line ≡ true)
    → {lines kept : List Str} → Purged host.now auth lines kept
    → (scan : Scan) → Copies (scan.copy ++ kept) scan.found (scan_lines host auth lines scan)
scan_lines-Purged host auth put at_end scan =
    (scan, unfold scan_lines in refl, sym (append-nil scan.copy), refl)
scan_lines-Purged host auth put (keeps {line} {lines} {kept} s read live key p) scan =
    let (scan', e, c, d) = on_line-kept host auth line s scan (put line) live key in
    let (scan'', e', c', d') = scan_lines-Purged host auth put p scan' in
    (
      scan'',
      scan_lines-next host auth line lines s scan scan' read e ∙ e',
      c' ∙ (ap (λ l. l ++ kept) c ∙ append_assoc scan.copy (line ∷ []) kept),
      d' ∙ d,
    )
scan_lines-Purged host auth put (drops {line} {lines} {kept} s read live p) scan =
    let (scan', e, c, d) = on_line-dropped host auth line s scan live in
    let (scan'', e', c', d') = scan_lines-Purged host auth put p scan' in
    (
      scan'',
      scan_lines-next host auth line lines s scan scan' read e ∙ e',
      c' ∙ ap (λ l. l ++ kept) c,
      d' ∙ d,
    )
