-- ===== src/Pty/Tests.antt =====
-- The theorems on the PTY at a concrete emulator.
use hootty.Base.{some, List, [], ◌∷◌, ◌++◌, ◌≡◌, refl, Bytes, length}
use hootty.Io.{write_file}
use hootty.Stripper as Query
use hootty.Stripper.Query.{esc, is_csi_query}
use hootty.Pty.{sub_at, format_terminal_snapshot_parts}
use hootty.Pty.Split.{split_snapshot_rows, IsSplit, split_snapshot_rows-IsSplit}
use hootty.Pty.Live.{Event, read, taken, received, run, keeps_up, output, concat, buffer_of}
use hootty.Pty.Requests.{snapshot, subscribe_with_snapshot_parts}
use hootty.Pty.Attach.{seen, attached, subscribe_with_snapshot_parts-received}
use hootty.Pty.Routes.{post, handle_input}
use hootty.Pty.Paste.{Pasted, handle_input-Pasted}
use hootty.Pty.Streaming.{handle_stream}
use hootty.Pty.Sample.{typewriter, fresh_pty}

split_snapshot_rows-IsSplit_example :
    IsSplit
      (b'a' ∷ b'\r' ∷ b'\n' ∷ b'b' ∷ [])
      1
      (split_snapshot_rows (b'a' ∷ b'\r' ∷ b'\n' ∷ b'b' ∷ []) 1)
split_snapshot_rows-IsSplit_example =
    split_snapshot_rows-IsSplit (b'a' ∷ b'\r' ∷ b'\n' ∷ b'b' ∷ []) 1

split_one_row :
    split_snapshot_rows (b'a' ∷ b'\r' ∷ b'\n' ∷ b'b' ∷ []) 1
    ≡ (b'a' ∷ b'\r' ∷ b'\n' ∷ [], b'b' ∷ [])
unfolding split_snapshot_rows
split_one_row = refl

abbrev on : Bytes
on = b'o' ∷ b'n' ∷ []

handle_input-Pasted_example :
    Pasted typewriter fresh_pty
      (b'l' ∷ b's' ∷ [])
      (handle_input typewriter fresh_pty post (some (b'l' ∷ b's' ∷ [])) on).0
unfolding handle_input write_file
handle_input-Pasted_example =
    handle_input-Pasted typewriter fresh_pty (b'l' ∷ b's' ∷ []) on refl refl

-- A prompt, an attach, a device query and more text, which the client reads.
abbrev before : List Event
before = read 0 (b'$' ∷ []) ∷ []

abbrev after : List Event
after = read 40 (esc ∷ b'[' ∷ []) ∷ read 41 (b'c' ∷ b'x' ∷ []) ∷ taken 0 ∷ []

subscribe_with_snapshot_parts-received_example :
    (subscribe_with_snapshot_parts typewriter (run typewriter fresh_pty before)
      ≡ (attached typewriter (run typewriter fresh_pty before), some ([], b'$' ∷ [])))
    × (received typewriter
            (length (run typewriter fresh_pty before).subs)
            (attached typewriter (run typewriter fresh_pty before))
            after
          ++ concat (
              buffer_of (
                sub_at
                  (length (run typewriter fresh_pty before).subs)
                  (run typewriter
                    (attached typewriter (run typewriter fresh_pty before))
                    after).subs))
        ≡ (Query.filter Query.initial (output after)).1)
unfolding seen format_terminal_snapshot_parts run attached keeps_up Query.feed_in
subscribe_with_snapshot_parts-received_example =
    subscribe_with_snapshot_parts-received typewriter before after [] fresh_pty ([], b'$' ∷ []) refl
      refl refl refl refl

only_text : (Query.filter Query.initial (output after)).1 ≡ b'x' ∷ []
unfolding Query.filter Query.feed_in is_csi_query
only_text = refl

-- One byte of output between the two is in the body twice.
abbrev one_byte : List Event
one_byte = read 0 (b'a' ∷ []) ∷ []

streamed_output : output (one_byte ++ taken 0 ∷ []) ≡ b'a' ∷ []
streamed_output = refl

streamed_twice :
    (handle_stream typewriter fresh_pty one_byte (taken 0 ∷ [])).1.body ≡ b'a' ∷ b'a' ∷ []
unfolding handle_stream run received snapshot Query.feed_in
streamed_twice = refl
