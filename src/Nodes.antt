-- ===== src/Nodes.antt =====
-- internal/protocol/dht/nodeaddr.go and nodeinfo.go: addresses and nodes of the DHT and their compact
-- encodings. A byte is a number below 256, Go's `int` is ℤ, and `none` is a panic. The reflection of
-- `unmarshalBinarySlice` and `marshalBinarySlice` is read at the one type that they are called with.
pub mod Decode
pub mod RoundTrip
mod Examples
use hexmagnet.Prelude.{
  ℤ, pos, negsuc, ℕ, zero, suc, ◌+◌, ◌-◌, ◌*◌, ◌/◌, ◌%◌, ◌^◌, Bool, true, false, ◌&&◌, ◌||◌, ltb,
  ◌==◌, if◌then◌else◌, List, [], ◌∷◌, ◌++◌, length, take, drop, map, Option, none, some, ◌>>=◌,
}
use hexmagnet.Clamp.{clamp_uint16}

abbrev pub Bytes : Type 0
Bytes = List ℕ

pub record NodeAddr : Type 0 where
  pub ip : Bytes
  pub port : ℤ

-- The zero `netip.Addr` has no bytes.
pub record AddrPort : Type 0 where
  pub addr : Bytes
  pub port : ℕ

pub record NodeInfo : Type 0 where
  pub id : Bytes
  pub addr : NodeAddr

-- `netip.AddrFromSlice`, with the zero address for other lengths.
abbrev addr_from_slice : Bytes → Bytes
addr_from_slice ip = if length ip == 4 || length ip == 16 then ip else []

pub to_addr_port : NodeAddr → AddrPort
to_addr_port a = record { addr = addr_from_slice a.ip; port = clamp_uint16 a.port }

pub new_node_addr_from_addr_port : AddrPort → NodeAddr
new_node_addr_from_addr_port f = record { ip = f.addr; port = pos f.port }

-- `uint16(i)` of an int.
abbrev pub uint16 : ℤ → ℕ
uint16 (pos n) = n % 2 ^ 16
uint16 (negsuc n) = 2 ^ 16 - 1 - n % 2 ^ 16

-- Two bytes, the higher first.
abbrev pub put_uint16 : ℕ → Bytes
put_uint16 n = n / 256 ∷ n % 256 ∷ []

abbrev pub get_uint16 : Bytes → ℕ
get_uint16 [] = 0
get_uint16 (x ∷ []) = 0
get_uint16 (x ∷ y ∷ r) = x * 256 + y

-- The length that is made is negative for less than two bytes.
pub unmarshal_addr : Bytes → Option NodeAddr
unmarshal_addr b =
    if ltb (length b) 2
    then none
    else some
        (record { ip = take (length b - 2) b; port = pos (get_uint16 (drop (length b - 2) b)) })

pub marshal_addr : NodeAddr → Bytes
marshal_addr a = a.ip ++ put_uint16 (uint16 a.port)

pub marshal_info : NodeInfo → Bytes
marshal_info ni = ni.id ++ (ni.addr.ip ++ put_uint16 (uint16 ni.addr.port))

pub unmarshal_info : Bytes → Option NodeInfo
unmarshal_info b =
    if ltb (length b) 20
    then none
    else unmarshal_addr (drop 20 b) >>= λ addr. some (record { id = take 20 b; addr = addr })

abbrev pub elem_size : ℕ
elem_size = 26

-- `net.IP.To4`: nil for what is not an IPv4 address.
abbrev pub zeros : ℕ → Bytes → Bool
zeros zero b = true
zeros (suc n) [] = false
zeros (suc n) (x ∷ b) = x == 0 && zeros n b

abbrev pub all_ones : Bytes → Bool
all_ones [] = false
all_ones (x ∷ []) = false
all_ones (x ∷ y ∷ r) = x == 255 && y == 255

unfoldable pub to4 : Bytes → Bytes
to4 ip =
    if length ip == 4
    then ip
    else if length ip == 16 && (zeros 10 ip && all_ones (drop 10 ip))
    then drop 12 ip
    else []

abbrev pub with_ip4 : NodeInfo → NodeInfo
with_ip4 ni = record ni { addr = record (ni.addr) { ip = to4 ni.addr.ip } }

pub marshal_slice : List NodeInfo → Option Bytes
marshal_slice [] = some []
marshal_slice (e ∷ es) =
    let rest = marshal_slice es >>= (λ ret. some (marshal_info e ++ ret)) in
    if length (marshal_info e) == elem_size then rest else none

pub marshal_nodes : List NodeInfo → Option Bytes
marshal_nodes nodes = marshal_slice (map with_ip4 nodes)

-- The slice, and the number of trailing bytes of an error.
abbrev pub Decoded : Type 0
Decoded = List NodeInfo × Option ℕ

-- A round takes at least a byte off, so the bytes are fuel enough.
unmarshal_loop : ℕ → Bytes → List NodeInfo → Option Decoded
unmarshal_loop zero b nodes = some (nodes, none)
unmarshal_loop (suc f) b nodes =
    let next = λ (e : NodeInfo). unmarshal_loop f (drop elem_size b) (nodes ++ e ∷ []) in
    if length b == 0
    then some (nodes, none)
    else if ltb (length b) elem_size
    then some (nodes, some (length b))
    else unmarshal_info (take elem_size b) >>= next

pub unmarshal_nodes : List NodeInfo → Bytes → Option Decoded
unfolding unmarshal_loop
unmarshal_nodes nodes b = unmarshal_loop (length b) b nodes
