-- ===== src/Core/DidWeb/Resolved.antt =====
-- trust-policy.ts: what a key that createDidWebResolver gives has been checked for.
use credaryn.Base.{
  drop, ◌||◌, Bool, ◌∙◌, ap, Result-cases, some_injective, inr, not, none, refl, true_and, inl, ok,
  arith, All, Bool-cases, some, false, true, ◌≡◌, ◌==◌, ◌≢◌, length, all, List, ◌∷◌, [],
}
use credaryn.Core.DidWeb.Resolver.{
  is_bad_host, candidate_url, decode_segments, url_of_segments, resolve_did_web_url, is_good_url,
  hostname_from_url, Platform, DidWebResolverOptions,
}
use credaryn.Base.Options.{>>=-eq-some}
use credaryn.Base.Text.{starts_with, list_eq→eq, list_eq_iff, list_eq, codes, Text}
use credaryn.Core.Descriptor.{Url}
use credaryn.Core.DidWeb.Private.{is_private_address, is_public, resolves_to_public_address}
use credaryn.Core.TrustPolicy.{is_allowed_domain}
use credaryn.Base.Split.{split}

-- The URL is one that the parser gave: over HTTPS on its default port, without credentials, query
-- and fragment, on an allowed host.
abbrev pub IsDidUrl : Platform → List Text → Text → Type 0
IsDidUrl platform allowed_domains href =
    (candidate : Text) × (parsed : Url) × (platform.parse_url candidate ≡ some parsed)
    × (parsed.href ≡ href)
    × (parsed.protocol ≡ codes "https:")
    × (parsed.username ≡ [])
    × (parsed.password ≡ [])
    × (parsed.port ≡ [])
    × (parsed.search ≡ [])
    × (parsed.hash ≡ [])
    × (is_allowed_domain parsed.hostname allowed_domains ≡ true)

-- An address that is none of the private ones.
abbrev pub IsPublicAddress : Platform → Text → Type 0
IsPublicAddress platform text = (text ≢ []) × (is_private_address platform.is_ip text ≡ false)

-- The host of the URL has addresses, all of them public.
abbrev pub HasPublicHost : Platform → DidWebResolverOptions → Text → Type 0
HasPublicHost platform options href =
    (parsed : Url) × (addresses : List Text) × (platform.parse_url href ≡ some parsed)
    × (options.lookup parsed.hostname ≡ ok addresses)
    × (addresses ≢ [])
    × All (IsPublicAddress platform) addresses

length-zero : {A : Type 0} (xs : List A) → length xs == 0 ≡ true → xs ≡ []
length-zero [] h = refl
length-zero (x ∷ xs) h = absurd (ground arith)

is_good_url-IsDidUrl :
    (platform : Platform) (candidate : Text) (parsed : Url) (allowed_domains : List Text)
    → platform.parse_url candidate ≡ some parsed
    → is_good_url parsed allowed_domains ≡ true
    → IsDidUrl platform allowed_domains parsed.href
unfolding is_good_url
is_good_url-IsDidUrl platform candidate parsed allowed_domains p h =
    let (h1, listed) = true_and _ (is_allowed_domain parsed.hostname allowed_domains) h in
    let (h2, hash) = true_and _ (length parsed.hash == 0) h1 in
    let (h3, query) = true_and _ (length parsed.search == 0) h2 in
    let (h4, port) = true_and _ (length parsed.port == 0) h3 in
    let (h5, password) = true_and _ (length parsed.password == 0) h4 in
    let (protocol, username) =
      true_and (list_eq parsed.protocol (codes "https:")) (length parsed.username == 0) h5 in
    (
      candidate,
      parsed,
      p,
      refl,
      list_eq→eq parsed.protocol (codes "https:") protocol,
      length-zero parsed.username username,
      length-zero parsed.password password,
      length-zero parsed.port port,
      length-zero parsed.search query,
      length-zero parsed.hash hash,
      listed,
    )

all-public :
    (platform : Platform) (addresses : List Text)
    → all (is_public platform.is_ip) addresses ≡ true
    → All (IsPublicAddress platform) addresses
all-public platform [] h = tt
all-public platform (a ∷ addresses) h =
    let (first, rest) =
      true_and (is_public platform.is_ip a) (all (is_public platform.is_ip) addresses) h in
    let (some_text, public) =
      true_and (not (list_eq a [])) (not (is_private_address platform.is_ip a)) first in
    (
      (
        (λ e. let bad : false ≡ true = rw ((list_eq_iff a []).1 e) at some_text in cc),
        ground arith,
      ),
      all-public platform addresses rest,
    )

pub resolves-HasPublicHost :
    (platform : Platform) (options : DidWebResolverOptions) (href hostname : Text)
    → hostname_from_url platform href ≡ some hostname
    → resolves_to_public_address platform.is_ip hostname options.lookup ≡ true
    → HasPublicHost platform options href
unfolding hostname_from_url resolves_to_public_address
resolves-HasPublicHost platform options href hostname n h =
    let (parsed, p, rest) = >>=-eq-some (platform.parse_url href) _ n in
    elim (Bool-cases (length parsed.hostname == 0)) [
      | inl empty ↦ let bad : none ≡ some hostname = rw empty at rest in cc
      | inr not_empty ↦
          let same : parsed.hostname ≡ hostname = some_injective (rw not_empty at rest) in
          elim (Result-cases (options.lookup hostname)) [
            | inr (e, l) ↦ let bad : false ≡ true = rw (resolves_to_public_address, l) at h in cc
            | inl (addresses, l) ↦
                let (some_address, public) =
                  true_and (not (length addresses == 0)) (all (is_public platform.is_ip) addresses)
                    (rw (resolves_to_public_address, l) at h) in
                (
                  parsed,
                  addresses,
                  p,
                  ap options.lookup same ∙ l,
                  (λ e. let bad : false ≡ true = rw e at some_address in cc),
                  all-public platform addresses public,
                )
          ]
    ]

neither : (refused good : Bool) → (refused || not good) ≡ false → good ≡ true
neither true good h = cc
neither false true h = refl
neither false false h = cc

url_of_segments-IsDidUrl :
    (platform : Platform) (allowed_domains segments : List Text) (href : Text)
    → url_of_segments platform allowed_domains segments ≡ some href
    → IsDidUrl platform allowed_domains href
unfolding url_of_segments
url_of_segments-IsDidUrl platform allowed_domains [] href h = cc
url_of_segments-IsDidUrl platform allowed_domains (s ∷ segments) href h =
    let (host, _, h1) = >>=-eq-some (platform.decode_component s) _ h in
    let (path, _, h2) = >>=-eq-some (decode_segments platform segments) _ h1 in
    let (parsed, p, h3) = >>=-eq-some (platform.parse_url (candidate_url host path)) _ h2 in
    let bad_host = is_bad_host platform.is_ip host in
    elim (Bool-cases (bad_host || not (is_good_url parsed allowed_domains))) [
      | inl refused ↦ let bad : none ≡ some href = rw refused at h3 in cc
      | inr good ↦
          let same : parsed.href ≡ href = some_injective (rw good at h3) in
          rw⁻¹ same (
            is_good_url-IsDidUrl platform (candidate_url host path) parsed allowed_domains p
              (neither bad_host (is_good_url parsed allowed_domains) good))
    ]

pub resolve_did_web_url-IsDidUrl :
    (platform : Platform) (allowed_domains : List Text) (issuer_id href : Text)
    → resolve_did_web_url platform issuer_id allowed_domains ≡ some href
    → IsDidUrl platform allowed_domains href
unfolding resolve_did_web_url
resolve_did_web_url-IsDidUrl platform allowed_domains issuer_id href h =
    elim (Bool-cases (starts_with issuer_id (codes "did:web:"))) [
      | inl did ↦
          url_of_segments-IsDidUrl platform allowed_domains (split b':' (drop 8 issuer_id)) href
            (rw did at h)
      | inr other ↦ let bad : none ≡ some href = rw other at h in cc
    ]
