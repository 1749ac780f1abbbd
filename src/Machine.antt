-- ===== src/Machine.antt =====
-- The state of Firmware/main/zops.c: its structs, its static variables, and the outcome of a step.
-- A `byte` is a number below 256: `char` is unsigned on the ESP32's compiler.
-- What the interpreter asks of Screen.cpp, of `esp_random` and of the file system is a log of calls
-- and, for each kind of question, the list of the answers that are still to come.
use zmachine.Base.{ℕ, Bool, List, Option}
use zmachine.Base.Int.{ℤ}
use zmachine.Stack.{Stack}

-- `SrcImmediate` and `SrcVariable`
pub data Src : Type 0 where
  src_immediate src_variable : Src

pub data Form : Type 0 where
  form_0op form_1op form_2op form_var form_ext : Form

pub record Operand : Type 0 where
  pub value : ℤ
  pub src : Src

pub record Branch : Type 0 where
  pub offset : ℤ
  pub negate : Bool

pub record Instruction : Type 0 where
  pub op : ℕ
  pub form : Form
  pub store : ℤ
  pub num_ops : ℕ
  pub branch : Branch
  -- the array of eight
  pub operands : List Operand

-- `ZCallStack`. A local that was never written is `none`.
pub record CallStack : Type 0 where
  pub return_addr : ℤ
  pub return_store : ℤ
  pub set_arguments : ℕ
  pub num_locals : ℕ
  pub locals : List (Option ℤ)
  pub depth : ℕ

pub record ZObject : Type 0 where
  pub addr : ℤ
  pub prop_table : ℕ

pub record Property : Type 0 where
  pub addr : ℕ
  pub size : ℕ
  pub is_default : Bool

-- `ZToken`: the text without its terminator, and where it starts in the input.
pub record Token : Type 0 where
  pub text : List ℕ
  pub start : ℕ

pub record DictEntry : Type 0 where
  pub coded : List ℕ
  pub current : ℕ

-- `SaveStream`. `ptr` and `end` are offsets into `buffer`; `f` is the open file: for a writer the
-- bytes written so far, for a reader the bytes that `fread` has not delivered.
pub record SaveStream : Type 0 where
  pub buffer : List ℕ
  pub ptr : ℕ
  pub limit : ℕ
  pub position : ℕ
  pub file : Option (List ℕ)
  pub chunk_size_idx : ℕ
  pub chunk_size : List ℕ
  pub chunk_stack_idx : ℕ
  pub chunk_stack : List ℕ

-- A call that leaves the interpreter.
pub data Call : Type 0 where
  print_char : ℕ → Call
  print_string : List ℕ → Call
  set_cursor : ℤ → ℤ → Call
  set_non_scroll_rows : ℤ → Call
  read_input : ℕ → Call
  read_input_single : ℕ → Call
  close_file : List ℕ → List ℕ → Call

pub record Console : Type 0 where
  -- the latest first
  pub calls : List Call
  -- the answers of `ScreenGetCursor`, of the two input calls, of `esp_random` and of `fopen`
  pub cursors : List (ℤ × ℤ)
  pub lines : List (List ℕ)
  pub randoms : List ℕ
  pub opened : List (Option (List ℕ))

-- The static variables. `cursor_x`, `cursor_y` and `window_start` are arrays of three.
pub record Machine : Type 0 where
  pub ins : Instruction
  pub pc : ℤ
  pub global_variables : ℕ
  pub abbrev_table : ℕ
  pub object_table : ℕ
  pub dictionary_table : ℕ
  pub end_of_dynamic : ℕ
  pub version : ℕ
  pub packed_multiplier : ℕ
  pub memory : List ℕ
  pub number_stack : Stack ℤ
  pub call_stack : Stack CallStack
  pub save_stream : SaveStream
  pub mem_stream_ptr : ℕ
  pub output_stream : Bool
  pub input : List ℕ
  pub dynamic_chunks : List (List ℕ)
  pub alphabet_lookup : List (List ℕ)
  pub cur_window : ℕ
  pub cursor_x : List ℤ
  pub cursor_y : List ℤ
  pub window_start : List ℤ
  pub console : Console
