-- ===== src/CommandLine/Urls.antt =====
-- node_agent/cli.py: `to_ws_url`, on the parts of a URL that `urlparse` finds.
use fleet_lm.Base.{
  rstrip_slash, ends_with, has_slashes, String, Char, Bool, true, false, ◌||◌, some, ◌≡◌, refl,
  arith, Bool-cases, inl, inr, if◌then◌else◌, same_text, same_text-eq, non_empty, concat,
}

pub record UrlParts : Type 0 where
  pub scheme : String
  pub netloc : String
  pub path : String

-- The address without a scheme that gets one.
unfoldable pub addressed : String → String
addressed url = if has_slashes url then url else concat "//" url

is : String → String → Bool
is scheme name = same_text (some scheme) (some name)

unfoldable pub ws_scheme : String → String
unfolding is
ws_scheme scheme = if is scheme "https" || is scheme "wss" then "wss" else "ws"

abbrev pub endpoint : String
endpoint = "/nodes/ws"

unfoldable pub with_endpoint : String → String
with_endpoint path = if ends_with endpoint path then path else concat path endpoint

unfoldable pub ws_parts : UrlParts → UrlParts
ws_parts parts = record {
  scheme = ws_scheme parts.scheme;
  netloc = parts.netloc;
  path = with_endpoint (rstrip_slash parts.path);
}

-- `to_ws_url`, over what `urlparse` and `urlunparse` do.
unfoldable pub to_ws_url : (String → UrlParts) → (UrlParts → String) → String → String
to_ws_url urlparse urlunparse url = urlunparse (ws_parts (urlparse (addressed url)))

ends_with-concat : (p : String) → ends_with endpoint (concat p endpoint) ≡ true
unfolding ends_with concat same_text
ends_with-concat String.[] = refl
ends_with-concat (String.◌∷◌ c p) = ground (arith, ends_with-concat p)

ends_with-non_empty : (p : String) → ends_with endpoint p ≡ true → non_empty p ≡ true
unfolding ends_with same_text non_empty
ends_with-non_empty String.[] h = cc
ends_with-non_empty (String.◌∷◌ c p) h = refl

endpoint-rstrip_slash : rstrip_slash endpoint ≡ endpoint
unfolding rstrip_slash non_empty
endpoint-rstrip_slash = refl

rstrip_slash-cons :
    (c : Char) (p : String)
    → rstrip_slash p ≡ p
    → non_empty p ≡ true
    → rstrip_slash (String.◌∷◌ c p) ≡ String.◌∷◌ c p
unfolding rstrip_slash
rstrip_slash-cons c p kept some_text = rw (kept, some_text) refl

ends_with-tail :
    (c : Char) (p : String)
    → ends_with endpoint (String.◌∷◌ c p) ≡ true
    → same_text (some (String.◌∷◌ c p)) (some endpoint) ≡ false
    → ends_with endpoint p ≡ true
unfolding ends_with
ends_with-tail c p h e = ground arith

ends_with-rstrip_slash : (p : String) → ends_with endpoint p ≡ true → rstrip_slash p ≡ p
ends_with-rstrip_slash String.[] h = unfold rstrip_slash in refl
ends_with-rstrip_slash (String.◌∷◌ c p) h =
    elim (Bool-cases (same_text (some (String.◌∷◌ c p)) (some endpoint))) [
      | inl e ↦
          let whole : String.◌∷◌ c p ≡ endpoint = same_text-eq (String.◌∷◌ c p) endpoint e in
          rw whole endpoint-rstrip_slash
      | inr e ↦
          let below : ends_with endpoint p ≡ true = ends_with-tail c p h e in
          rstrip_slash-cons c p (ends_with-rstrip_slash p below) (ends_with-non_empty p below)
    ]

with_endpoint-ends_with : (p : String) → ends_with endpoint (with_endpoint p) ≡ true
unfolding with_endpoint
with_endpoint-ends_with p = elim (Bool-cases (ends_with endpoint p)) [
  | inl e ↦ rw e e
  | inr e ↦ rw e (ends_with-concat p)
]

ws_scheme-twice : (t : String) → ws_scheme (ws_scheme t) ≡ ws_scheme t
unfolding ws_scheme same_text
ws_scheme-twice t = elim (Bool-cases (is t "https" || is t "wss")) [
  | inl e ↦ rw e refl
  | inr e ↦ rw e refl
]

-- The address of a node's socket: its path ends with the endpoint and its scheme is one of the two
-- of WebSockets, so that a path already turned into an address is one that `to_ws_url` leaves alone.
pub ws_parts-twice :
    (parts : UrlParts)
    → (ends_with endpoint (ws_parts parts).path ≡ true)
      × ((ws_parts parts).netloc ≡ parts.netloc)
      × (ws_parts (ws_parts parts) ≡ ws_parts parts)
unfolding ws_parts
ws_parts-twice parts =
    let path = with_endpoint (rstrip_slash parts.path) in
    let ended : ends_with endpoint path ≡ true =
      with_endpoint-ends_with (rstrip_slash parts.path) in
    let kept : with_endpoint (rstrip_slash path) ≡ path =
      rw (ends_with-rstrip_slash path ended) (unfold with_endpoint in rw ended refl) in
    (ended, refl, rw (ws_scheme-twice parts.scheme, kept) refl)
