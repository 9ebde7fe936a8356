-- ===== src/Client/Copy/Download/Files.antt =====
-- quish-client/src/cp.rs: what a download leaves on the disk, whatever the server sends and
-- whichever call fails.
use mathlib.Core.List.{append-nil, append_assoc}
use quish.Base.{
  ℕ, zero, suc, ◌≡◌, refl, sym, ap, ◌∙◌, ◌≢◌, ◌⊎◌, inl, inr, true, false, Option, none, some, List,
  [], ◌∷◌, ◌++◌, arith, Bool-cases,
}
use quish.Base.Int.{ℤ, pos, negsuc}
use quish.Base.Text.{Bytes, bytes_eq}
use quish.Base.Text.Laws.{bytes_eq_refl}
use quish.Proto.Message.{data_msg, data_err, resize, exit_status, signal}
use quish.Client.Copy.Download.{
  Files, set, Event, got, lost, Ended, status, closed, transport_err, append_file, receive, Answers,
  code, remove_file, rename, conclude, download_one,
}

-- The data that came before the status.
abbrev pub payload : List Event → Bytes
payload [] = []
payload (lost ∷ es) = []
payload (got (data_msg d) w ∷ es) = d ++ payload es
payload (got (exit_status c) w ∷ es) = []
payload (got (data_err d) w ∷ es) = payload es
payload (got (resize cols rows) w ∷ es) = payload es
payload (got (signal s) w ∷ es) = payload es

set_other :
    (p temp : Bytes) (c : Option Bytes) (files : Files)
    → bytes_eq p temp ≡ false
    → set temp c files p ≡ files p
set_other p temp c files h = rw h

set_same : (temp : Bytes) (c : Option Bytes) (files : Files) → set temp c files temp ≡ c
set_same temp c files = rw (bytes_eq_refl temp)

receive_other :
    (temp p : Bytes) (es : List Event) (files : Files)
    → bytes_eq p temp ≡ false
    → (receive temp es files).0 p ≡ files p
unfolding receive
receive_other temp p [] files h = refl
receive_other temp p (lost ∷ es) files h = refl
receive_other temp p (got (data_msg d) none ∷ es) files h =
    receive_other temp p es (append_file temp d files) h ∙ set_other p temp _ files h
receive_other temp p (got (data_msg d) (some n) ∷ es) files h = set_other p temp _ files h
receive_other temp p (got (exit_status c) w ∷ es) files h = refl
receive_other temp p (got (data_err d) w ∷ es) files h = receive_other temp p es files h
receive_other temp p (got (resize cols rows) w ∷ es) files h = receive_other temp p es files h
receive_other temp p (got (signal s) w ∷ es) files h = receive_other temp p es files h

receive_temp :
    (temp : Bytes) (es : List Event) (files : Files) (sofar : Bytes) (c : ℤ)
    → files temp ≡ some sofar
    → (receive temp es files).1 ≡ status c
    → (receive temp es files).0 temp ≡ some (sofar ++ payload es)
unfolding receive
receive_temp temp [] files sofar c h e = absurd (cc)
receive_temp temp (lost ∷ es) files sofar c h e = absurd (cc)
receive_temp temp (got (data_msg d) none ∷ es) files sofar c h e =
    receive_temp temp es (append_file temp d files) (sofar ++ d) c (set_same temp _ files ∙ rw h) e
    ∙ ap some (append_assoc sofar d (payload es))
receive_temp temp (got (data_msg d) (some n) ∷ es) files sofar c h e = absurd (cc)
receive_temp temp (got (exit_status c') w ∷ es) files sofar c h e =
    h ∙ ap some (sym (append-nil sofar))
receive_temp temp (got (data_err d) w ∷ es) files sofar c h e =
    receive_temp temp es files sofar c h e
receive_temp temp (got (resize cols rows) w ∷ es) files sofar c h e =
    receive_temp temp es files sofar c h e
receive_temp temp (got (signal s) w ∷ es) files sofar c h e = receive_temp temp es files sofar c h e

remove_other :
    (a : Answers) (temp p : Bytes) (files : Files)
    → bytes_eq p temp ≡ false
    → remove_file a temp files p ≡ files p
remove_other a temp p files h = elim (Bool-cases a.removed) [
  | inl r ↦ rw r (set_other p temp none files h)
  | inr r ↦ rw r
]

rename_other :
    (temp path p : Bytes) (before : Files) (sent : Bytes) (after : Files)
    → bytes_eq p temp ≡ false
    → after p ≡ before p
    → after temp ≡ some sent
    → rename temp path after p ≡ set path (some sent) before p
rename_other temp path p before sent after h k t =
    rw h (elim (Bool-cases (bytes_eq p path)) [ inl e ↦ rw e t | inr e ↦ rw e k ])

pos_suc : (n : ℕ) → pos (suc n) ≡ pos 0 → ⊥
pos_suc n e = ground arith

-- After the loop: the file at `p`, which is not the temporary one.
conclude_other :
    (a : Answers) (temp path p : Bytes) (before : Files) (sent : Bytes) (after : Files)
    (end : Ended)
    → bytes_eq p temp ≡ false
    → after p ≡ before p
    → ((c : ℤ) → end ≡ status c → after temp ≡ some sent)
    → (((conclude a temp path (after, end)).1 ≡ code (pos 0))
        × ((conclude a temp path (after, end)).0 p ≡ set path (some sent) before p))
      ⊎ (((conclude a temp path (after, end)).1 ≢ code (pos 0))
          × ((conclude a temp path (after, end)).0 p ≡ before p))
unfolding conclude
conclude_other a temp path p before sent after transport_err h k t =
    inr (cc, remove_other a temp p after h ∙ k)
conclude_other a temp path p before sent after closed h k t =
    inr (cc, remove_other a temp p after h ∙ k)
conclude_other a temp path p before sent after (status (pos zero)) h k t =
    elim (Bool-cases a.flushed) [
      | inl f ↦ elim (Bool-cases a.renamed) [
        | inl r ↦ inl (
          rw (conclude, f) (rw r refl),
          rw (conclude, f) (rw r (rename_other temp path p before sent after h k (t (pos 0) refl))),
        )
        | inr r ↦ inr (rw (conclude, f) (rw r cc), rw (conclude, f) (rw r k))
      ]
      | inr f ↦ inr (rw (conclude, f) cc, rw (conclude, f) k)
    ]
conclude_other a temp path p before sent after (status (pos (suc n))) h k t =
    inr (λ e. absurd (pos_suc n (cc e)), remove_other a temp p after h ∙ k)
conclude_other a temp path p before sent after (status (negsuc n)) h k t =
    inr (cc, remove_other a temp p after h ∙ k)

-- A download of exit code 0 leaves at the destination the data that came before the status, in
-- order, and every other file but the temporary one as it was. Any other download leaves every
-- file but the temporary one as it was.
pub download_one-files :
    (a : Answers) (temp path : Bytes) (es : List Event) (before : Files) (p : Bytes)
    → bytes_eq p temp ≡ false
    → (((download_one a temp path es before).1 ≡ code (pos 0))
        × ((download_one a temp path es before).0 p ≡ set path (some (payload es)) before p))
      ⊎ (((download_one a temp path es before).1 ≢ code (pos 0))
          × ((download_one a temp path es before).0 p ≡ before p))
unfolding download_one
download_one-files a temp path es before p h =
    let start = set temp (some []) before in
    elim (Bool-cases a.opened) [
      | inl o ↦ elim (Bool-cases a.created) [
        | inl c ↦
            rw (download_one, o)
              (rw c (
                conclude_other a temp path p before (payload es) (receive temp es start).0
                  (receive temp es start).1 h
                  (receive_other temp p es start h ∙ set_other p temp _ before h)
                  (λ code e.
                    receive_temp temp es start [] code (set_same temp (some []) before) e)))
        | inr c ↦ inr (rw (download_one, o) (rw c cc), rw (download_one, o) (rw c refl))
      ]
      | inr o ↦ inr (rw (download_one, o) cc, rw (download_one, o) refl)
    ]

conclude_temp :
    (a : Answers) (temp path : Bytes) (after : Files) (end : Ended)
    → a.flushed ≡ true
    → a.renamed ≡ true
    → a.removed ≡ true
    → (conclude a temp path (after, end)).0 temp ≡ none
unfolding conclude
conclude_temp a temp path after transport_err f r d = rw d (set_same temp none after)
conclude_temp a temp path after closed f r d = rw d (set_same temp none after)
conclude_temp a temp path after (status (pos zero)) f r d =
    rw (conclude, f) (rw r (set_same temp none (set path (after temp) after)))
conclude_temp a temp path after (status (pos (suc n))) f r d = rw d (set_same temp none after)
conclude_temp a temp path after (status (negsuc n)) f r d = rw d (set_same temp none after)

-- When no call on the disk fails and no temporary file was there before, there is none after.
pub download_one-temp :
    (a : Answers) (temp path : Bytes) (es : List Event) (before : Files)
    → before temp ≡ none
    → a.flushed ≡ true
    → a.renamed ≡ true
    → a.removed ≡ true
    → (download_one a temp path es before).0 temp ≡ none
unfolding download_one
download_one-temp a temp path es before h f r d = elim (Bool-cases a.opened) [
  | inl o ↦ elim (Bool-cases a.created) [
    | inl c ↦ rw (download_one, o) (rw c (conclude_temp a temp path _ _ f r d))
    | inr c ↦ rw (download_one, o) (rw c h)
  ]
  | inr o ↦ rw (download_one, o) h
]
