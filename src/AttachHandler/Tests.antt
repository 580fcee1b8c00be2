-- ===== src/AttachHandler/Tests.antt =====
-- The theorems on the attach handler at a concrete session.
use hootty.Base.{true, false, Option, none, some, [], ◌∷◌, ◌++◌, refl, arith, Bytes, inl, inr}
use hootty.Io.{Reader, closes, eof, read_full}
use hootty.Wire.{Message, read_failed, read_frame, msg_hello, msg_input, msg_size}
use hootty.Wire.Frames.{stream}
use hootty.AttachSet as Set
use hootty.AttachSet.{AttachWinsize}
use hootty.Registry.{Origin, RegisteredAttach, AttachRegistry, registered}
use hootty.Pty.Sample.{typewriter, fresh_pty}
use hootty.AttachHandler.{Json, Environment, Serving, serve_one, client_read_loop}
use hootty.AttachHandler.Leaves.{SameMembers, serve_one-members}
use hootty.AttachHandler.Inputs.{ReadsAll, client_read_loop-ReadsAll}

abbrev eighty : AttachWinsize
eighty = record { cols = 80; rows = 24 }

abbrev nowhere : Origin
nowhere = record { host = []; term = []; term_program = []; term_program_version = []; user = [] }

-- A size is two bytes.
abbrev size_of : Bytes → Option AttachWinsize
size_of (c ∷ r ∷ []) = some (record { cols = c; rows = r })
size_of _ = none

abbrev json : Json
json = record {
  decode_hello = λ bs. some (record { size = eighty; origin = nowhere });
  decode_size = size_of;
  encode_size = λ ws. ws.cols ∷ ws.rows ∷ [];
}

abbrev quiet : Environment
quiet = record {
  setsize = λ ws. true;
  clock = λ n. n;
  minted = some 7;
  now = 50;
  size_saved = λ n. true;
  add_saved = false;
  remove_saved = true;
}

-- Another client, 3, is attached.
abbrev other_member : RegisteredAttach
other_member = registered 5 20 eighty nowhere 3

abbrev one_registered : AttachRegistry
one_registered = record {
  has_writer = true;
  members = other_member ∷ [];
  waiting = [];
  attachments = other_member.attachment ∷ [];
  size = eighty;
  stored = other_member.attachment ∷ [];
  stored_size = eighty;
  closed = [];
}

abbrev idle : Serving Bytes
idle = record {
  pty = fresh_pty;
  set = Set.new_attach_set;
  registry = some one_registered;
  no_history = false;
  out = [];
  told = [];
  resizes = 0;
}

abbrev typed : Message
typed = record { typ = msg_input; payload = b'l' ∷ b's' ∷ [] }

abbrev resized : Message
resized = record { typ = msg_size; payload = 100 ∷ 30 ∷ [] }

abbrev greeting : Message
greeting = record { typ = msg_hello; payload = [] }

abbrev visit : Reader
visit = record { bytes = stream (greeting ∷ typed ∷ []); ending = closes }

serve_one-members_example : SameMembers idle (serve_one typewriter json quiet 7 visit idle).0
serve_one-members_example =
    serve_one-members typewriter json quiet 7 visit idle
      (record { connection = refl; id = λ i h. ground (arith, h) })

client_read_loop-ReadsAll_example :
    ReadsAll typewriter json quiet (typed ∷ resized ∷ []) (read_failed eof) idle (
      client_read_loop typewriter json quiet 3 7
        (record { bytes = stream (typed ∷ resized ∷ []) ++ []; ending = closes })
        idle)
unfolding read_frame read_full
client_read_loop-ReadsAll_example =
    client_read_loop-ReadsAll typewriter json quiet (typed ∷ resized ∷ []) 3 7 [] closes
      (read_failed eof) idle (omega arith) (omega arith, (omega arith, tt))
      (inl refl, (inr (inr (refl, λ h. grind (arith, h))), tt)) refl refl
