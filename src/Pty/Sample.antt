-- ===== src/Pty/Sample.antt =====
-- A concrete emulator and PTY, for the examples: the terminal is what it was written, nothing has
-- left its screen, and bracketed paste is on.
use hootty.Base.{true, false, none, some, [], ◌++◌, Bytes}
use hootty.Io.{File}
use hootty.PrimaryFilter as Primary
use hootty.Pty.{Emulator, LibghosttyPty}

abbrev pub typewriter : Emulator Bytes
typewriter = record {
  vt_write = λ t bs. (t ++ bs, []);
  resize = λ t cols rows. some t;
  mode_bracketed_paste = λ t. some true;
  is_alternate = λ t. some false;
  scrollback_rows = λ t. some 0;
  format = λ options t. some t;
}

abbrev pub unlimited : File
unlimited = record { content = []; room = none }

abbrev pub fresh_pty : LibghosttyPty Bytes
fresh_pty = record {
  master = unlimited;
  term = some [];
  primary_term = some [];
  primary_filter = Primary.idle false;
  cols = 80;
  rows = 24;
  subs = [];
  rec = none;
  done = false;
}
