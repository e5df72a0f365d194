-- ===== src/Receiver/Append/Examples.antt =====
-- A file of three bytes that arrives in two appends, and the theorems at this run.
use yisync.Common.{ℕ, ◌≡◌, refl, List, [], ◌∷◌, none, some, true, length, All}
use yisync.Protocol.Codes.{EntryKind, Compression, ChecksumAlgo}
use yisync.Protocol.Message.{Bytes, Create, Data}
use yisync.Sync.{bytes_equal}
use yisync.Receiver.Files.{split_name, path_parts, all_good, is_safe_relative_name}
use yisync.Receiver.Append.{
  TreePath, Tree, Answers, AppendStream, parts_of, path_for_file, make, reset_session_from_disk,
}
use yisync.Receiver.Append.Session.{Event, creates, appends, run}
use yisync.Receiver.Append.Prefix.{HoldsPrefixes, Honest, run-HoldsPrefixes}

abbrev name : Bytes
name = 97 ∷ []

abbrev answers : Answers
answers = record {
  link_size = λ target. none;
  entry_name = λ id. some name;
  checksum_matches = λ checksum entry. true;
  makes_parent = true;
  creates = true;
  opens = true;
  writes = true;
  written = 0;
  crc = λ bs. 0;
}

abbrev create : Create
create = record {
  stream_id = 9;
  seq = 1;
  file_id = 5;
  kind = EntryKind.regular_file;
  name = name;
  link_target = [];
  final_size = 3;
  prev_file_id = 0;
  prev_final_size = 0;
  prev_checksum = record { algo = ChecksumAlgo.none; offset = 0; len = 0; value = [] };
}

abbrev source : TreePath → Bytes
source path = 1 ∷ 2 ∷ 3 ∷ []

abbrev path_of : ℕ → TreePath
path_of id = parts_of name

abbrev data_at : ℕ → Bytes → Data
data_at offset payload = record {
  stream_id = 9;
  seq = 1;
  file_id = 5;
  offset = offset;
  final_size = 3;
  raw_len = length payload;
  compression = Compression.none;
  checksum_algo = ChecksumAlgo.crc32c;
  checksum = 0 ∷ 0 ∷ 0 ∷ 0 ∷ [];
  payload = payload;
}

abbrev nothing : Tree
nothing path = none

abbrev start : AppendStream
start = make 9 nothing none

abbrev events : List Event
events = creates answers create ∷ appends answers (data_at 0 (1 ∷ 2 ∷ [])) ∷ []

abbrev halfway : AppendStream
halfway = run start events

start-HoldsPrefixes : HoldsPrefixes source path_of start
unfolding make reset_session_from_disk
start-HoldsPrefixes = record { files = λ p content e. cc e; current = λ p e. cc e }

named : path_for_file answers 5 ≡ parts_of name
unfolding is_safe_relative_name all_good path_parts split_name bytes_equal
named = refl

events-Honest : All (Honest source path_of) events
events-Honest = (refl, (((3 ∷ [], refl), named), tt))

run-HoldsPrefixes_example : HoldsPrefixes source path_of halfway
run-HoldsPrefixes_example =
    run-HoldsPrefixes source path_of start events start-HoldsPrefixes events-Honest
