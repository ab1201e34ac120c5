-- ===== src/Go/Net.antt =====
-- Package net: addresses and networks. An address that has a four-byte form is kept in that form.
use plv.Prelude.{
  ℕ, zero, suc, ◌+◌, ◌-◌, ◌*◌, ◌/◌, ◌%◌, ◌^◌, Bool, true, false, ◌&&◌, ◌||◌, not, ◌==◌, ltb, leb,
  if◌then◌else◌, List, [], ◌∷◌, ◌++◌, Option, none, some, length, take, drop,
}
use plv.Go.Text.{Text}
use plv.Go.Regexp.{is_digit, is_hex}
use plv.Go.Time.Parse.{◌>>=◌, ◌>>◌, check}

pub record Ip : Type 0 where
  pub is4 : Bool
  pub value : ℕ

-- One field of a dotted address: no leading zero, at most 255.
octet_from : ℕ → ℕ → Text → Option (ℕ × Text)
octet_from v n [] = if n == 0 then none else some (v, [])
octet_from v n (c ∷ s) =
    let more = octet_from (v * 10 + (c - 48)) (n + 1) s in
    if is_digit c
    then (if (n == 1 && v == 0) || ltb 255 (v * 10 + (c - 48)) then none else more)
    else if n == 0
    then none
    else some (v, c ∷ s)

dot : Text → Option Text
dot [] = none
dot (c ∷ s) = if c == b'.' then some s else none

unfoldable pub parse_ipv4 : Text → Option ℕ
unfolding octet_from dot
parse_ipv4 s = do
  (a, s) ← octet_from 0 0 s
  s ← dot s
  (b, s) ← octet_from 0 0 s
  s ← dot s
  (c, s) ← octet_from 0 0 s
  s ← dot s
  (d, s) ← octet_from 0 0 s
  check (length s == 0)
  some (((a * 256 + b) * 256 + c) * 256 + d)

hex_value : ℕ → ℕ
hex_value c = if is_digit c then c - 48 else if leb c b'F' then c - 55 else c - 87

-- The hexadecimal digits at the head: value, count and rest.
hex_run : ℕ → ℕ → Text → ℕ × ℕ × Text
hex_run v n [] = (v, n, [])
hex_run v n (c ∷ s) =
    let more = hex_run (v * 16 + hex_value c) (n + 1) s in if is_hex c then more else (v, n, c ∷ s)

is_none_at : Option ℕ → Bool
is_none_at none = true
is_none_at (some i) = false

abbrev Groups : Type 0
Groups = List ℕ × Option ℕ × Text

-- A dotted address in the last four bytes; `s` begins at its first digit.
embedded : List ℕ → Option ℕ → Text → Option Groups
embedded gs mark s = do
  check (not (is_none_at mark) || length gs == 6)
  check (leb (length gs) 6)
  v ← parse_ipv4 s
  some (gs ++ (v / 65536 ∷ v % 65536 ∷ []), mark, [])

-- The groups of an IPv6 address, and where "::" stood among them; n groups are still allowed.
groups6 : ℕ → List ℕ → Option ℕ → Text → Option Groups
groups6 zero gs mark s = some (gs, mark, s)
groups6 (suc n) gs mark s =
    let (v, k, rest) = hex_run 0 0 s in
    let gs' = gs ++ v ∷ [] in
    if k == 0 || ltb 4 k then none else elim rest [
      | [] ↦ some (gs', mark, [])
      | c ∷ [] ↦ if c == b'.' then embedded gs mark s else none
      | c ∷ d ∷ more ↦
          let ellipsis = groups6 n gs' (some (length gs')) more in
          let next = groups6 n gs' mark (d ∷ more) in
          if c == b'.'
          then embedded gs mark s
          else if not (c == b':')
          then none
          else if not (d == b':')
          then next
          else if not (is_none_at mark)
          then none
          else if length more == 0
          then some (gs', some (length gs'), [])
          else ellipsis
    ]

zeros : ℕ → List ℕ
zeros zero = []
zeros (suc n) = 0 ∷ zeros n

join16 : ℕ → List ℕ → ℕ
join16 v [] = v
join16 v (g ∷ gs) = join16 (v * 65536 + g) gs

expand : List ℕ → Option ℕ → Option ℕ
expand gs none = do check (length gs == 8); some (join16 0 gs)
expand gs (some i) = do
  check (ltb (length gs) 8)
  some (join16 0 (take i gs ++ (zeros (8 - length gs) ++ drop i gs)))

parse_groups : List ℕ × Option ℕ × Text → Option ℕ
parse_groups (gs, mark, s) = do check (length s == 0); expand gs mark

unfoldable pub parse_ipv6 : Text → Option ℕ
unfolding hex_value hex_run is_none_at embedded groups6 zeros join16 expand parse_groups
parse_ipv6 (a ∷ b ∷ s) =
    if a == b':' && b == b':'
    then (if length s == 0 then some 0 else (groups6 8 [] (some 0) s >>= parse_groups))
    else (groups6 8 [] none (a ∷ b ∷ s) >>= parse_groups)
parse_ipv6 s = groups6 8 [] none s >>= parse_groups

-- ::ffff:0:0/96
mapped : ℕ → Bool
mapped v = v / 2 ^ 32 == 0xFFFF

-- To4 where it is not nil.
unfoldable pub from16 : ℕ → Ip
unfolding mapped
from16 v =
    if mapped v
    then record { is4 = true; value = v % 2 ^ 32 }
    else record { is4 = false; value = v }

-- The first of ". : %" decides what an address is.
family : Text → Option Bool
family [] = none
family (c ∷ s) =
    let rest = family s in
    if c == b'.'
    then some true
    else if c == b':'
    then some false
    else if c == b'%'
    then none
    else rest

has_byte : ℕ → Text → Bool
has_byte d [] = false
has_byte d (c ∷ s) = let rest = has_byte d s in if c == d then true else rest

parse_as : Bool → Text → Option Ip
parse_as true s = do v ← parse_ipv4 s; some (record { is4 = true; value = v })
parse_as false s = do v ← parse_ipv6 s; some (from16 v)

-- net.ParseIP: an address with a zone is refused.
unfoldable pub parse_ip : Text → Option Ip
unfolding family has_byte parse_as
parse_ip s = if has_byte b'%' s then none else do four ← family s; parse_as four s

-- The leading bits of an address of w bits lie in a network of n bits.
abbrev shares : ℕ → ℕ → ℕ → ℕ → Bool
shares w n a b = a / 2 ^ (w - n) == b / 2 ^ (w - n)

unfoldable pub is_loopback : Ip → Bool
is_loopback a = if a.is4 then a.value / 2 ^ 24 == 127 else a.value == 1

unfoldable pub is_link_local_unicast : Ip → Bool
is_link_local_unicast a =
    if a.is4 then a.value / 2 ^ 16 == 169 * 256 + 254 else a.value / 2 ^ 118 == 0xFE80 / 64

unfoldable pub is_link_local_multicast : Ip → Bool
is_link_local_multicast a =
    if a.is4
    then a.value / 2 ^ 8 == 224 * 65536
    else a.value / 2 ^ 120 == 0xFF && a.value / 2 ^ 112 % 16 == 2

unfoldable pub is_private : Ip → Bool
is_private a =
    if a.is4
    then a.value / 2 ^ 24 == 10
      || a.value / 2 ^ 20 == (172 * 256 + 16) / 16
      || a.value / 2 ^ 16 == 192 * 256 + 168
    else a.value / 2 ^ 121 == 0xFC / 2

-- *net.IPNet as ParseCIDR makes it. `ones` and `bits` are Mask.Size; `width` and `prefix` are those
-- of the form in which the network's address is compared.
pub record Network : Type 0 where
  pub is4 : Bool
  pub value : ℕ
  pub prefix : ℕ
  pub ones : ℕ
  pub bits : ℕ

abbrev pub width : Bool → ℕ
width true = 32
width false = 128

unfoldable pub net_contains : Network → Ip → Bool
net_contains n a =
    let w = width a.is4 in
    (if a.is4 then n.is4 else not n.is4)
    && a.value / 2 ^ (w - n.prefix) == n.value / 2 ^ (w - n.prefix)
