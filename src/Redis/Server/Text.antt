-- ===== src/Redis/Server/Text.antt =====
-- The bytes of a string literal of ASCII characters.
use Prim.Native.Char.{Char, code}
use Prim.Native.String.{String}
use text.Mathlib.TextBridge.{to_list}
use raft_bitcask.Prelude.{List, [], ◌∷◌}
use raft_bitcask.Common.{Bytes}

codes : List Char → Bytes
codes [] = []
codes (c ∷ cs) = code c ∷ codes cs

pub ascii : String → Bytes
ascii s = codes (to_list s)
