-- ===== src/Controller/Validation.antt =====
-- internal/controller/validation.go: which URLs of facilitators the controller accepts.
pub mod Private
pub mod Accepts
use x402_k8s_operator.Base.{
  ℕ, ◌+◌, ◌-◌, ◌*◌, ◌/◌, ◌%◌, ◌^◌, Bool, true, false, not, ◌&&◌, ◌||◌, Option, none, some, List, [],
  ◌∷◌, Str, str, ◌==◌, eqb, if◌then◌else◌, Result, ok, err,
}
use x402_k8s_operator.Base.Text.{is_empty, has_suffix, contains_byte, to_lower}

-- A `net.IP` as the number that its 4 or 16 bytes spell.
pub data Ip : Type 0 where
  ip4 ip6 : ℕ → Ip

-- A `net.IPNet`: an address and the length of its prefix.
pub record IpNet : Type 0 where
  pub ip : Ip
  pub prefix_len : ℕ

abbrev pub v4 : ℕ → ℕ → ℕ → ℕ → Ip
v4 a b c d = ip4 (((a * 256 + b) * 256 + c) * 256 + d)

-- An IPv6 address by its first two bytes and the rest.
abbrev pub v6 : ℕ → ℕ → ℕ → Ip
v6 a b rest = ip6 ((a * 256 + b) * 2 ^ 112 + rest)

abbrev pub cidr : Ip → ℕ → IpNet
cidr ip prefix_len = record { ip = ip; prefix_len = prefix_len }

-- The addresses are of one family and agree on a prefix of this length.
abbrev pub same_prefix : Ip → Ip → ℕ → Bool
same_prefix (ip4 a) (ip4 b) n = eqb (a / 2 ^ (32 - n)) (b / 2 ^ (32 - n))
same_prefix (ip6 a) (ip6 b) n = eqb (a / 2 ^ (128 - n)) (b / 2 ^ (128 - n))
same_prefix (ip4 a) (ip6 b) n = false
same_prefix (ip6 a) (ip4 b) n = false

-- `To4`, with which `Contains` reads an address of 16 bytes that holds one of 4.
abbrev pub to4 : Ip → Ip
to4 (ip4 n) = ip4 n
to4 (ip6 n) = if eqb (n / 2 ^ 32) 0xffff then ip4 (n % 2 ^ 32) else ip6 n

-- `Contains`
abbrev pub contains_ip : IpNet → Ip → Bool
contains_ip net ip = same_prefix net.ip (to4 ip) net.prefix_len

-- `privateRanges`
abbrev pub private_ranges : List IpNet
private_ranges =
    cidr (v4 127 0 0 0) 8
    ∷ cidr (v4 10 0 0 0) 8
    ∷ cidr (v4 172 16 0 0) 12
    ∷ cidr (v4 192 168 0 0) 16
    ∷ cidr (v4 169 254 0 0) 16
    ∷ cidr (v6 0 0 1) 128
    ∷ cidr (v6 0xfd 0 0) 8
    ∷ cidr (v6 0xfe 0x80 0) 10
    ∷ []

abbrev pub any_contains : List IpNet → Ip → Bool
any_contains [] ip = false
any_contains (net ∷ nets) ip = contains_ip net ip || any_contains nets ip

-- `isPrivateIP`
unfoldable pub is_private_ip : Ip → Bool
is_private_ip ip = any_contains private_ranges ip

-- `isInClusterHostname`
unfoldable pub is_in_cluster_hostname : Str → Bool
unfolding contains_byte has_suffix
is_in_cluster_hostname hostname =
    if not (contains_byte hostname b'.')
    then true
    else if has_suffix hostname (str ".svc.cluster.local")
    then true
    else has_suffix hostname (str ".svc")

-- What the check reads of a `url.URL`: `Scheme` and `Hostname()`.
pub record Url : Type 0 where
  pub scheme : Str
  pub hostname : Str

pub data UrlError : Type 0 where
  malformed scheme_not_allowed missing_hostname is_localhost is_internal is_private : UrlError
  http_to_ip http_to_external : UrlError

-- The last part of the check, on the address that the hostname spells, if it spells one.
abbrev pub validate_address : Str → Str → Option Ip → Result UrlError (Unit {0})
validate_address scheme lower (some ip) =
    if is_private_ip ip
    then err is_private
    else if not (scheme == str "https")
    then err http_to_ip
    else ok tt
validate_address scheme lower none =
    if is_in_cluster_hostname lower
    then ok tt
    else if not (scheme == str "https")
    then err http_to_external
    else ok tt

abbrev pub validate_url : (parse_ip : Str → Option Ip) → Option Url → Result UrlError (Unit {0})
validate_url parse_ip none = err malformed
validate_url parse_ip (some u) =
    let lower = to_lower u.hostname in
    if not (u.scheme == str "http") && not (u.scheme == str "https")
    then err scheme_not_allowed
    else if is_empty u.hostname
    then err missing_hostname
    else if lower == str "localhost"
    then err is_localhost
    else if has_suffix lower (str ".internal")
    then err is_internal
    else validate_address u.scheme lower (parse_ip u.hostname)

-- `validateFacilitatorURL`
unfoldable pub validate_facilitator_url :
    (parse_url : Str → Option Url) (parse_ip : Str → Option Ip) → Str → Result UrlError (Unit {0})
unfolding is_private_ip is_in_cluster_hostname to_lower has_suffix ◌==◌
validate_facilitator_url parse_url parse_ip raw_url = validate_url parse_ip (parse_url raw_url)
