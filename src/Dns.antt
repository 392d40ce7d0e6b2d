-- ===== src/Dns.antt =====
-- primitives_dns.cpp.
pub mod Failures
use mathlib.Core.Option
use text.Mathlib.Text.{◌==◌ as str_eq}
use runtime_system.Base.{
  ℕ, ℤ, String, List, [], ◌∷◌, ◌++◌, Option, none, some, is_zero, is_negative, Bool, true, false,
  if◌then◌else◌,
}
use runtime_system.Value.{Value, array, throw_uv}
use runtime_system.State.{
  World, Kind, Operation, on_context, give_result, Family, af_inet, af_inet6, af_other,
}
use runtime_system.State.Memory.{new_context, delete_context, fill_context, queue_fiber_to_resume}
use runtime_system.External.{External, submit}
use runtime_system.Primitive.{Outcome, replies, blocks, throw}
use runtime_system.Udp.{SockAddr}

-- `hints.ai_family` for a record type.
unfoldable pub family_of : String → Option Family
family_of rrtype =
    if str_eq rrtype "A" then some af_inet else if str_eq rrtype "AAAA" then some af_inet6 else none

-- `new DNSContext(…)`, without the fiber.
abbrev dns_context : String → Kind
dns_context hostname = Kind.dns hostname [] false

-- `DNS_Resolve`, up to its `Fiber::yield()`. The result of `uv_getaddrinfo` is looked at.
unfoldable pub dns_resolve : External → (hostname rrtype : String) → World → Outcome
unfolding family_of new_context submit
dns_resolve x hostname rrtype w = elim (family_of rrtype) [
  | none ↦ throw "DNS record type not supported by libuv resolver" w
  | some family ↦
      let (c, w₁) = new_context (dns_context hostname) w in
      let (r, w₂) = submit x c (Operation.getaddrinfo hostname family) w₁ in
      if is_zero r
      then blocks (give_result (record { target = on_context c; held = [] })) w₂
      else replies (throw_uv x.strerror r "getaddrinfo" hostname) (delete_context c w₂)
]

-- The loop of `OnDNSCallback` over the answers.
unfoldable pub names_of : List SockAddr → List String
names_of [] = []
names_of (a ∷ rest_of) =
    let rest = names_of rest_of in
    elim a.family [ af_inet ↦ a.ip_name ∷ rest | af_inet6 ↦ a.ip_name ∷ rest | af_other ↦ rest ]

-- A list of answers that is not null.
abbrev is_list : List SockAddr → Bool
is_list [] = false
is_list (a ∷ rest) = true

-- What `OnDNSCallback` writes to its context.
unfoldable pub fill_dns : ℤ → List SockAddr → Kind → Kind
unfolding names_of
fill_dns status res (Kind.dns hostname addresses has_result) =
    Kind.dns hostname (if is_negative status then addresses else addresses ++ names_of res)
      (is_list res)
fill_dns status res k = k

-- `OnDNSCallback`.
unfoldable pub on_dns_callback : ℕ → ℤ → List SockAddr → World → Option World
unfolding fill_dns
on_dns_callback c status res w =
    Option.map (queue_fiber_to_resume c) (fill_context c status (fill_dns status res) w)

-- `DNSContext::CreateResultValue` on success.
unfoldable pub dns_success : List String → Value
dns_success addresses = array addresses
