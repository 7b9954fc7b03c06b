-- ===== src/Base/Text.antt =====
-- The bytes of a text literal (all of them are ASCII), and Go's `copy`.

use Prim.Native.Char.{code}
use Prim.Native.String.{String}
use mathlib.Core.List.{[], ◌∷◌, ◌++◌}
use tee_relay_client.Base.Equality.{Bytes}
use tee_relay_client.Base.Lists.{length, take, drop}

abbrev pub bytes : String → Bytes
bytes String.[] = []
bytes (String.◌∷◌ c s) = code c ∷ bytes s

-- `copy(dst, src)` overwrites the first bytes of `dst`, as many as both have.
abbrev pub copy : Bytes → Bytes → Bytes
copy dst src = take (length dst) src ++ drop (length src) dst
