-- ===== src/AttachClient/Shows.antt =====
-- What a whole connection leaves on the local terminal.
use mathlib.Core.Path.{subst}
use hootty.Base.{
  ℕ, zero, suc, ◌<◌, true, ◌&&◌, ◌||◌, none, some, List, [], ◌∷◌, ◌++◌, ◌≡◌, refl, sym, ap, ◌∙◌,
  ◌⊎◌, inl, inr, arith, ltb, ◌==◌, if◌then◌else◌, length, Bytes, All, Bool-cases, Option-cases,
  append_assoc, append-nil,
}
use hootty.Io.{write_file, Ending}
use hootty.Wire.{
  Message, WireError, Received, read_frame, msg_output, msg_size, msg_snapshot_scrollback,
  msg_snapshot_screen, msg_pong,
}
use hootty.Wire.Frames.{frame, Fits, stream, read_frame-frame}
use hootty.AttachSet.{AttachWinsize}
use hootty.AttachHandler.{Json}
use hootty.Restorer as Hoot
use hootty.Restorer.{HootRestorer}
use hootty.AttachClient.ServerLoop.{
  Place, Terminal, read_failed, Shown, goes_on, attach_status, show_payload, show_screen, show_size,
  show_frame, run_server_loop,
}

-- What a server sends.
abbrev pub IsServerFrame : Message → Type 0
IsServerFrame m =
    (m.typ ≡ msg_snapshot_scrollback)
    ⊎ (m.typ ≡ msg_output)
    ⊎ (m.typ ≡ msg_snapshot_screen)
    ⊎ (m.typ ≡ msg_size)
    ⊎ (m.typ ≡ msg_pong)

-- The bytes of a frame that are the session's own.
abbrev pub session_bytes : Message → Bytes
session_bytes m =
    if m.typ == msg_snapshot_scrollback || m.typ == msg_output || m.typ == msg_snapshot_screen
    then m.payload
    else []

-- The status stands before every screen.
abbrev pub shown_bytes : Place → Message → Bytes
shown_bytes l m =
    if m.typ == msg_snapshot_screen then attach_status l ++ m.payload else session_bytes m

abbrev pub concat_map : (Message → Bytes) → List Message → Bytes
concat_map f [] = []
concat_map f (m ∷ ms) = f m ++ concat_map f ms

-- The terminal has shown `bs` more, of which `seen` are the session's.
pub record Shows (t : Terminal) (bs seen : Bytes) (u : Terminal) : Type 0 where
  pub stdout : u.stdout ≡ record { content = t.stdout.content ++ bs; room = none }
  pub restorer : u.restorer ≡ Hoot.observe t.restorer seen

pub observe-append :
    (xs ys : Bytes) (r : HootRestorer)
    → Hoot.observe r (xs ++ ys) ≡ Hoot.observe (Hoot.observe r xs) ys
unfolding Hoot.observe
observe-append [] ys r = refl
observe-append (x ∷ xs) ys r = observe-append xs ys (Hoot.observe_byte r x)

abbrev Going : Terminal → Bytes → Bytes → Shown → Type 0
Going t bs seen s = (u : Terminal) × (s ≡ goes_on u) × Shows t bs seen u

Shows-none : (t : Terminal) → t.stdout.room ≡ none → Shows t [] [] t
unfolding Hoot.observe
Shows-none t room = record {
  stdout = rw (append-nil t.stdout.content) (ground (arith, room));
  restorer = refl;
}

show_payload-Going :
    (payload : Bytes) (t : Terminal)
    → t.stdout.room ≡ none
    → Going t payload payload (show_payload payload t)
unfolding show_payload write_file Hoot.observe
show_payload-Going [] t room = (t, refl, Shows-none t room)
show_payload-Going (b ∷ bs) t room = (
  record t {
    stdout = record { content = t.stdout.content ++ b ∷ bs; room = none };
    restorer = Hoot.observe t.restorer (b ∷ bs);
  },
  rw (ltb_length b bs) (rw room refl),
  record { stdout = refl; restorer = refl },
)
  where
    ltb_length : (b : ℕ) (bs : Bytes) → ltb 0 (length (b ∷ bs)) ≡ true
    ltb_length b bs = ground arith

show_screen-Going :
    (l : Place) (payload : Bytes) (t : Terminal)
    → t.stdout.room ≡ none
    → Going t (attach_status l ++ payload) payload (show_screen l payload t)
unfolding show_screen write_file
show_screen-Going l payload t room =
    let (u, on, v) = show_payload-Going payload (with_status t) refl in
    (
      u,
      rw room on,
      record {
        stdout =
            v.stdout
            ∙ ap (λ bs. record { content = bs; room = none })
                (append_assoc t.stdout.content (attach_status l) payload);
        restorer = v.restorer;
      },
    )
  where
    with_status : Terminal → Terminal
    with_status t = record t {
      stdout = record { content = t.stdout.content ++ attach_status l; room = none };
      attached = true;
    }

show_size-Going :
    (J : Json) (l : Place) (payload : Bytes) (t : Terminal)
    → t.stdout.room ≡ none
    → Going t [] [] (show_size J l payload t)
unfolding show_size Hoot.observe
show_size-Going J l payload t room = elim (Option-cases (J.decode_size payload)) [
  | inl e ↦ (t, rw (e, show_size) refl, Shows-none t room)
  | inr (ws, e) ↦
      let same =
        l.local_size.cols == 0 || (ws.cols == l.local_size.cols && ws.rows == l.local_size.rows) in
      elim (Bool-cases same) [
        | inl z ↦ (t, rw (e, z, show_size) refl, Shows-none t room)
        | inr z ↦ (
          noticed ws,
          rw (e, z, show_size) refl,
          record { stdout = (Shows-none t room).stdout; restorer = refl },
        )
      ]
]
  where
    noticed : AttachWinsize → Terminal
    noticed ws = record t { notices = t.notices ++ ws ∷ [] }

-- A frame of type `k` with this payload.
abbrev GoingAt : Json → Place → Bytes → Terminal → ℕ → Type 0
GoingAt J l payload t k =
    let m : Message = record { typ = k; payload = payload } in
    Going t (shown_bytes l m) (session_bytes m) (show_frame J l m t)

show_frame-Going :
    (J : Json) (l : Place) (m : Message) (t : Terminal)
    → IsServerFrame m
    → t.stdout.room ≡ none
    → GoingAt J l m.payload t m.typ
unfolding show_frame
show_frame-Going J l m t (inl is) room =
    subst (GoingAt J l m.payload t) (sym is) (show_payload-Going m.payload t room)
show_frame-Going J l m t (inr (inl is)) room =
    subst (GoingAt J l m.payload t) (sym is) (show_payload-Going m.payload t room)
show_frame-Going J l m t (inr (inr (inl is))) room =
    subst (GoingAt J l m.payload t) (sym is) (show_screen-Going l m.payload t room)
show_frame-Going J l m t (inr (inr (inr (inl is)))) room =
    subst (GoingAt J l m.payload t) (sym is) (show_size-Going J l m.payload t room)
show_frame-Going J l m t (inr (inr (inr (inr is)))) room =
    subst (GoingAt J l m.payload t) (sym is) (t, refl, Shows-none t room)

Shows-append :
    (t u v : Terminal) (a b c d : Bytes)
    → Shows t a b u
    → Shows u c d v
    → Shows t (a ++ c) (b ++ d) v
Shows-append t u v a b c d p q = record {
  stdout =
      q.stdout
      ∙ ap (λ f. record { content = f.content ++ c; room = none }) p.stdout
      ∙ ap (λ bs. record { content = bs; room = none }) (append_assoc t.stdout.content a c);
  restorer =
      q.restorer ∙ ap (λ r. Hoot.observe r d) p.restorer ∙ sym (observe-append b d t.restorer);
}

-- A connection whose frames, all of the server's kinds, are followed by the reader's error `e`: the
-- local terminal is given the payloads of history, screens and output in order, with the status
-- in front of every screen; the restorer has observed these payloads without the status; and the
-- loop returns that error.
pub run_server_loop-Shows :
    (J : Json) (l : Place) (ms : List Message) (left : ℕ) (tail : Bytes) (ending : Ending)
    (e : WireError) (t : Terminal)
    → length ms < left
    → All Fits ms
    → All IsServerFrame ms
    → read_frame (record { bytes = tail; ending = ending }) ≡ Received.err e
    → t.stdout.room ≡ none
    → Shows t
        (concat_map (shown_bytes l) ms)
        (concat_map session_bytes ms)
        (run_server_loop J l left (record { bytes = stream ms ++ tail; ending = ending }) t).0
      × ((run_server_loop J l left (record { bytes = stream ms ++ tail; ending = ending }) t).1
          ≡ some (read_failed e))
unfolding run_server_loop
run_server_loop-Shows J l ms zero tail ending e t enough fits is h room = elim enough [ ]
run_server_loop-Shows J l [] (suc left) tail ending e t enough fits is h room =
    rw (h, run_server_loop) (Shows-none t room, refl)
run_server_loop-Shows J l (m ∷ ms) (suc left) tail ending e t enough fits is h room =
    let (u, on, shows) = show_frame-Going J l m t is.0 room in
    let later =
      run_server_loop-Shows J l ms left tail ending e u (omega arith) fits.1 is.1 h
        (ap (λ f. f.room) shows.stdout) in
    rw (append_assoc (frame m) (stream ms) tail) (
      rw (read_frame-frame m (stream ms ++ tail) ending fits.0, run_server_loop)
        (rw on (
          Shows-append t u _ (shown_bytes l m) (session_bytes m) (concat_map (shown_bytes l) ms)
              (concat_map session_bytes ms) shows later.0,
          later.1,
        )))
