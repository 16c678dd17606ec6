-- ===== src/Wire/Examples.antt =====
-- The messages at concrete values, over numbers that are integers.
use mathlib.Core.List.{flatten}
use sqlite_daemon.Prelude.{
  ℕ, suc, String, ◌≡◌, refl, ◌↔◌, ℤ, pos, negsuc, List, [], ◌∷◌, Option, none, some, Result, ok,
  err, Io, arith, ◌==◌, if◌then◌else◌,
}
use sqlite_daemon.Protocol
use sqlite_daemon.Protocol.{Json, Value, Response, ResponseData}
use sqlite_daemon.Protocol.Responses.{ok_ping}
use sqlite_daemon.Server.Words.{to_le_bytes}
use sqlite_daemon.Server.{handle_connection}
use sqlite_daemon.Server.Buffer.{reads_of}
use sqlite_daemon.Cli
use sqlite_daemon.Cli.{Commands, main, request_of}
use sqlite_daemon.Cli.Exchange.{client, server}
use sqlite_daemon.Wire.{Tree, Trees, Members, object, missing, field, Format, FormatLaws}
use sqlite_daemon.Wire.Requests.{read_request, write_request, Meant, read_request-Meant}
use sqlite_daemon.Wire.Responses.{write_response}
use sqlite_daemon.Wire.Whole.{Text, Accomplished, json_codec, command-Accomplished}

abbrev as_unsigned : ℤ → Option ℕ
as_unsigned (pos n) = some n
as_unsigned (negsuc n) = none

abbrev tree_json : Json
tree_json = record {
  Number = ℤ;
  Float = Unit {0};
  Array = Trees ℤ;
  Map = Members ℤ;
  as_i64 = λ n. some n;
  as_u64 = as_unsigned;
  as_f64 = λ n. none;
  array_to_string = λ a. "";
  object_to_string = λ m. "";
}

abbrev format : Format tree_json
format = record {
  array_items = λ a. a;
  array_of = λ ts. ts;
  object_members = λ m. m;
  object_of = λ m. m;
  from_i64 = λ z. z;
  from_u64 = λ n. pos n;
  other_mode = λ t. none;
  other_statement = λ t. none;
}

abbrev laws : FormatLaws format
laws = record {
  array_of-array_items = λ a. refl;
  object_of-object_members = λ m. refl;
  as_i64-from_i64 = λ z h. refl;
  as_u64-from_u64 = λ n h. refl;
}

abbrev batch : Cli.Request tree_json
batch =
    Cli.Request.exec_batch "a.db"
      (record { sql = "INSERT INTO t VALUES (?)"; params = Value.number (pos 1) ∷ Value.null ∷ [] }
        ∷ [])
      "none"

read_request-Meant_example : Meant format batch (read_request format (write_request format batch))
read_request-Meant_example = read_request-Meant format laws batch

abbrev pong : Response
pong = ok_ping "1.0.0" "a.db" (pos 7)

abbrev ping_command : Commands
ping_command = Commands.ping "a.db"

-- Two texts, for the request and for its response.
abbrev print_tree : Tree ℤ → List ℕ
print_tree (object m) = elim (field "type" m) [ missing ↦ b'q' ∷ [] | _ ↦ b'p' ∷ [] ]
print_tree t = b'q' ∷ []

abbrev parse_text : List ℕ → Result String (Tree ℤ)
parse_text [] = err "empty"
parse_text (b ∷ rest) = ok (
    if b == b'p'
    then object (write_request format (request_of ping_command))
    else object (write_response format pong))

abbrev two_texts : Text tree_json
two_texts = record {
  print = print_tree;
  parse = parse_text;
  why_no_request = λ m. "no request";
  why_no_response = λ m. "no response";
  other_request = λ t. err "not an object";
  other_response = λ t. err "not an object";
}

-- A router that counts its requests.
abbrev route : Protocol.Request tree_json → Io ℕ Response
route req n = (pong, suc n)

abbrev cut_stream : List (List ℕ)
cut_stream = (1 ∷ 0 ∷ []) ∷ (0 ∷ 0 ∷ b'p' ∷ []) ∷ []

command-Accomplished_example :
    let (ending, (after, written)) =
      handle_connection
        (server (json_codec format two_texts) route)
        (reads_of cut_stream)
        (0, []) in
    (after ≡ 1)
    × (((main
            (client (json_codec format two_texts))
            ping_command
            (record { sent = []; incoming = written })).0.code
          ≡ 0)
        ↔ Accomplished ping_command pong)
unfolding flatten to_le_bytes write_request write_response request_of
command-Accomplished_example =
    command-Accomplished format two_texts laws route ping_command cut_stream 0 refl refl
      (omega arith) (omega arith) (omega arith) tt refl
