-- ===== src/Client/Terminal/Closed.antt =====
-- What the pump sends once the user's input has ended.
use quish.Base.{
  ◌≡◌, refl, sym, ap, ◌∙◌, ◌⊎◌, inl, inr, Bool, true, false, none, some, List, [], ◌∷◌, ◌++◌,
}
use quish.Proto.Message.{ChannelMessage, data_msg, data_err, resize, exit_status, signal}
use quish.Client.Terminal.{
  Event, frame, chunk, window, interrupt, quitting, Action, to_server, to_stdout, to_stderr, finish,
  End, waiting, stopped, exited, Pump, send_frame, on_frame, step, go_on, run, started,
}

abbrev pub sent : List Action → List ChannelMessage
sent [] = []
sent (to_server m ∷ actions) = m ∷ sent actions
sent (to_stdout d ∷ actions) = sent actions
sent (to_stderr d ∷ actions) = sent actions
sent (finish ∷ actions) = sent actions

abbrev pub closed : Pump
closed = record { can_send = false; stdin_done = true }

step-closed :
    (interactive : Bool) (e : Event)
    → (sent (step interactive e closed).0.1 ≡ []) × ((step interactive e closed).1 ≡ closed)
unfolding step send_frame on_frame
step-closed interactive (frame none s) = (refl, refl)
step-closed interactive (frame (some (data_msg d)) true) = (refl, refl)
step-closed interactive (frame (some (data_msg d)) false) = (refl, refl)
step-closed interactive (frame (some (data_err d)) true) = (refl, refl)
step-closed interactive (frame (some (data_err d)) false) = (refl, refl)
step-closed interactive (frame (some (resize c r)) s) = (refl, refl)
step-closed interactive (frame (some (exit_status c)) s) = (refl, refl)
step-closed interactive (frame (some (signal x)) s) = (refl, refl)
step-closed interactive (chunk none s) = (refl, refl)
step-closed interactive (chunk (some b) s) = (refl, refl)
step-closed true (window c r s) = (refl, refl)
step-closed false (window c r s) = (refl, refl)
step-closed true (interrupt s) = (refl, refl)
step-closed false (interrupt s) = (refl, refl)
step-closed true (quitting s) = (refl, refl)
step-closed false (quitting s) = (refl, refl)

sent-append : (xs ys : List Action) → sent (xs ++ ys) ≡ sent xs ++ sent ys
sent-append [] ys = refl
sent-append (to_server m ∷ xs) ys = ap (λ t. m ∷ t) (sent-append xs ys)
sent-append (to_stdout d ∷ xs) ys = sent-append xs ys
sent-append (to_stderr d ∷ xs) ys = sent-append xs ys
sent-append (finish ∷ xs) ys = sent-append xs ys

quiet :
    (end : End) (now : List Action) (rest : End × List Action)
    → sent now ≡ []
    → sent rest.1 ≡ []
    → sent (go_on end now closed rest).1 ≡ []
quiet waiting now rest h h' = rw (sent-append now rest.1, h, h') refl
quiet stopped now rest h h' = h
quiet (exited code) now rest h h' = rw (sent-append now [], h) refl

run-closed : (interactive : Bool) (es : List Event) → sent (run interactive es closed).1 ≡ []
unfolding run
run-closed interactive [] = refl
run-closed interactive (e ∷ es) =
    let (nothing, stays) = step-closed interactive e in
    rw stays (
      quiet (step interactive e closed).0.0 (step interactive e closed).0.1
        (run interactive es closed) nothing (run-closed interactive es))

-- The sending half is open until the input ends.
abbrev pub IsHalf : Pump → Type 0
IsHalf p = (p ≡ started) ⊎ (p ≡ closed)

step-started : (interactive : Bool) (e : Event) → IsHalf (step interactive e started).1
unfolding step send_frame on_frame
step-started interactive (frame none s) = inl refl
step-started interactive (frame (some (data_msg d)) true) = inl refl
step-started interactive (frame (some (data_msg d)) false) = inl refl
step-started interactive (frame (some (data_err d)) true) = inl refl
step-started interactive (frame (some (data_err d)) false) = inl refl
step-started interactive (frame (some (resize c r)) s) = inl refl
step-started interactive (frame (some (exit_status c)) s) = inl refl
step-started interactive (frame (some (signal x)) s) = inl refl
step-started interactive (chunk none s) = inr refl
step-started interactive (chunk (some b) true) = inl refl
step-started interactive (chunk (some b) false) = inl refl
step-started true (window c r true) = inl refl
step-started true (window c r false) = inl refl
step-started false (window c r s) = inl refl
step-started true (interrupt s) = inl refl
step-started false (interrupt true) = inl refl
step-started false (interrupt false) = inl refl
step-started true (quitting s) = inl refl
step-started false (quitting true) = inl refl
step-started false (quitting false) = inl refl

step-IsHalf :
    (interactive : Bool) (e : Event) (p : Pump) → IsHalf p → IsHalf (step interactive e p).1
step-IsHalf interactive e p (inl h) = rw h (step-started interactive e)
step-IsHalf interactive e p (inr h) = rw h (inr (step-closed interactive e).1)

-- The input ends here.
ended :
    (interactive : Bool) (s : Bool) (es : List Event) (p : Pump)
    → IsHalf p
    → sent (run interactive (chunk none s ∷ es) p).1 ≡ []
unfolding run step
ended interactive s es p (inl h) = rw h (run-closed interactive es)
ended interactive s es p (inr h) = rw h (run-closed interactive es)

same_sent :
    (end : End) (now : List Action) (p : Pump) (r r' : End × List Action)
    → sent r.1 ≡ sent r'.1
    → sent (go_on end now p r).1 ≡ sent (go_on end now p r').1
same_sent waiting now p r r' h =
    sent-append now r.1 ∙ ap (λ t. sent now ++ t) h ∙ sym (sent-append now r'.1)
same_sent stopped now p r r' h = refl
same_sent (exited code) now p r r' h = refl

-- What the client sends on a channel, it sends before the user's input ends: after that, no
-- interrupt and no quit of an exec channel reaches the server, although the handlers stay
-- installed, and no resize of a shell.
pub run-sent :
    (interactive : Bool) (before after : List Event) (s : Bool) (p : Pump)
    → IsHalf p
    → sent (run interactive (before ++ chunk none s ∷ after) p).1
      ≡ sent (run interactive before p).1
unfolding run
run-sent interactive [] after s p h = ended interactive s after p h
run-sent interactive (e ∷ before) after s p h =
    let st = step interactive e p in
    same_sent st.0.0 st.0.1 st.1 (run interactive (before ++ chunk none s ∷ after) st.1)
      (run interactive before st.1)
      (run-sent interactive before after s st.1 (step-IsHalf interactive e p h))
