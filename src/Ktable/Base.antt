-- ===== src/Ktable/Base.antt =====
-- What the parts of the routing table share: identifiers as keys, addresses, and the set of
-- identifiers. Times are counts of nanoseconds; 0 is the zero `time.Time`.
use Prim.Native.String.{String}
use hexmagnet.Prelude.{ℕ, ◌*◌, ◌^◌, Bool, List, Eq}
use hexmagnet.Btree.Bits.{NodeId, equals}
use hexmagnet.Btree.Bits.Masks.{equals_iff}

instance abbrev pub id_eq : Eq NodeId
id_eq = record { beq = equals; beq_iff = equals_iff }

-- `netip.AddrPort`, as what the code reads of it: the text of its address (the key of the reverse
-- map), its port and its validity.
pub record AddrPort : Type 0 where
  pub addr : String
  pub port : ℕ
  pub valid : Bool

-- `time.Second`
abbrev pub second : ℕ
second = 10 ^ 9

abbrev pub minute : ℕ
minute = 60 * second

-- `map[ID]struct{}`
abbrev pub IdSet : Type 0
IdSet = List (NodeId × Unit {0})
