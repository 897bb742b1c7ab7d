-- ===== src/Shell/Trace.antt =====
-- HW1: what the shell prints and what it asks of the system, in the order of the calls.
use Prim.Native.String.{String}
use operating_system_whw.Common.{ℕ, Bool, List, ℤ}

-- Bytes, as `std::string` holds them.
abbrev pub Bytes : Type 0
Bytes = List ℕ

-- What `<<` puts on a stream: a literal, a string, or a number in decimal.
pub data Piece : Type 0 where
  lit : String → Piece
  bytes : Bytes → Piece
  number : ℤ → Piece

-- The descriptors by their part: both ends of a pipe, the file that was opened, the copy that
-- `dup` made, and the standard ones.
pub data Descriptor : Type 0 where
  read_end write_end opened saved standard_input standard_output : Descriptor

-- A line on `cout` or `cerr`, a call of `perror`, and the system calls.
pub data Event : Type 0 where
  out err : List Piece → Event
  print : Bytes → Event
  perror : String → Event
  kill : (pid signal : ℕ) → Event
  wait : (pid : ℕ) → Event
  chdir : Bytes → Event
  open_file : (file : Bytes) → (append : Bool) → Event
  pipe fork setpgrp strdup : Event
  dup close : Descriptor → Event
  dup2 : Descriptor → Descriptor → Event
  write read : Descriptor → Event
  exec : (command : Bytes) → Event
  exit : ℕ → Event
