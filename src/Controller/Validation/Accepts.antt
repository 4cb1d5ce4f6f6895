-- ===== src/Controller/Validation/Accepts.antt =====
-- Which URLs `validateFacilitatorURL` accepts.
use x402_k8s_operator.Base.{
  ℕ, ◌≡◌, ◌≢◌, ◌↔◌, ◌⊎◌, inl, inr, true, Option, none, some, [], ◌∷◌, Str, str, ==_iff,
  Option-cases, Elem, ok, arith,
}
use x402_k8s_operator.Base.Text.{contains_byte, to_lower}
use x402_k8s_operator.Base.Text.Affixes.{is_empty_iff, EndsWith, has_suffix_iff}
use x402_k8s_operator.Controller.Validation.Private.{IsPrivate, is_private_ip_iff}
use x402_k8s_operator.Controller.Validation.{
  Ip, Url, is_in_cluster_hostname, validate_url, validate_address, validate_facilitator_url,
}

contains_byte_iff : (s : Str) (b : ℕ) → (contains_byte s b ≡ true) ↔ Elem b s
unfolding contains_byte
contains_byte_iff [] b = ground arith
contains_byte_iff (c ∷ s) b = ground (arith, contains_byte_iff s b)

-- A name inside of the cluster: one without a dot, or one that ends in ".svc.cluster.local" or ".svc".
abbrev pub IsInCluster : Str → Type 0
IsInCluster hostname =
    (¬ Elem b'.' hostname)
    ⊎ (EndsWith hostname (str ".svc.cluster.local") ⊎ EndsWith hostname (str ".svc"))

is_in_cluster_hostname_iff :
    (hostname : Str) → (is_in_cluster_hostname hostname ≡ true) ↔ IsInCluster hostname
unfolding is_in_cluster_hostname
is_in_cluster_hostname_iff hostname = ground (
  arith,
  contains_byte_iff hostname b'.',
  has_suffix_iff hostname (str ".svc.cluster.local"),
  has_suffix_iff hostname (str ".svc"),
)

some_address_iff :
    (scheme lower : Str) (ip : Ip)
    → (validate_address scheme lower (some ip) ≡ ok tt)
      ↔ ((¬ IsPrivate ip) × (scheme ≡ str "https"))
some_address_iff scheme lower ip = ground (arith, ==_iff scheme (str "https"), is_private_ip_iff ip)

module _ (parse_ip : Str → Option Ip) where
  -- The hostname is no address: plain HTTP is for names inside of the cluster only.
  abbrev pub IsSafeName : Url → Type 0
  IsSafeName u =
      (parse_ip u.hostname ≡ none) × (IsInCluster (to_lower u.hostname) ⊎ (u.scheme ≡ str "https"))

  -- The hostname is an address outside of the private ranges.
  abbrev pub IsSafeAddress : Url → Type 0
  IsSafeAddress u =
      (ip : Ip) × (parse_ip u.hostname ≡ some ip) × (¬ IsPrivate ip) × (u.scheme ≡ str "https")

  abbrev pub IsSafe : Url → Type 0
  IsSafe u =
      ((u.scheme ≡ str "http") ⊎ (u.scheme ≡ str "https"))
      × (u.hostname ≢ [])
      × (to_lower u.hostname ≢ str "localhost")
      × (¬ EndsWith (to_lower u.hostname) (str ".internal"))
      × (IsSafeName u ⊎ IsSafeAddress u)

  validate_address_iff :
      (u : Url)
      → (validate_address u.scheme (to_lower u.hostname) (parse_ip u.hostname) ≡ ok tt)
        ↔ (IsSafeName u ⊎ IsSafeAddress u)
  validate_address_iff u = elim (Option-cases (parse_ip u.hostname)) [
    | inl name ↦ ground (
      arith,
      name,
      ==_iff u.scheme (str "https"),
      is_in_cluster_hostname_iff (to_lower u.hostname),
    )
    | inr (ip, address) ↦ (
      λ h.
          let (public, secure) =
            (some_address_iff u.scheme (to_lower u.hostname) ip).0 (rw address at h) in
          inr (ip, address, public, secure),
      λ safe. elim safe [
        | inl (no_address, _) ↦ cc
        | inr (ip', e, public, secure) ↦
            rw e ((some_address_iff u.scheme (to_lower u.hostname) ip').1 (public, secure))
      ],
    )
  ]

  validate_url_iff : (u : Url) → (validate_url parse_ip (some u) ≡ ok tt) ↔ IsSafe u
  validate_url_iff u = ground (
    arith,
    ==_iff u.scheme (str "http"),
    ==_iff u.scheme (str "https"),
    ==_iff (to_lower u.hostname) (str "localhost"),
    is_empty_iff u.hostname,
    has_suffix_iff (to_lower u.hostname) (str ".internal"),
    validate_address_iff u,
  )

  -- A facilitator's URL is accepted exactly when it parses, its scheme is http or https, its hostname
  -- is there, not localhost and not under .internal, and is either an address outside of the private
  -- ranges with https, or a name, which has no dot, ends in ".svc.cluster.local" or ".svc", or comes
  -- with https. A hostname is compared in lower case.
  pub validate_facilitator_url_iff :
      (parse_url : Str → Option Url) (raw_url : Str)
      → (validate_facilitator_url parse_url parse_ip raw_url ≡ ok tt)
        ↔ ((u : Url) × (parse_url raw_url ≡ some u) × IsSafe u)
  unfolding validate_facilitator_url
  validate_facilitator_url_iff parse_url raw_url = (
    λ h. elim (Option-cases (parse_url raw_url)) [
      | inl bad ↦ cc (rw bad at h)
      | inr (u, good) ↦ (u, good, (validate_url_iff u).0 (rw good at h))
    ],
    λ (u, good, safe). rw good ((validate_url_iff u).1 safe),
  )
