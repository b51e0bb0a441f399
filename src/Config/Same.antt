-- ===== src/Config/Same.antt =====
-- `reflect.DeepEqual` on the profiles of internal/config/profiles.go.
use data_mate.Base.{
  ◌≡◌, ap, refl, Bool, true, false, ◌&&◌, Option, none, some, text_eq, text_eq_iff, text_eq_refl,
  ◌==◌, ==_iff, arith,
}
use data_mate.Config.Database.{Revision, revision_eq}
use data_mate.Config.Profile.{Connection, Tls, Ssh, Proxy, Transport, Limits, Profile}

module _ {A : Type 0} where
  unfoldable pub same_pointed : (A → A → Bool) → Option A → Option A → Bool
  same_pointed same none none = true
  same_pointed same none (some b) = false
  same_pointed same (some a) none = false
  same_pointed same (some a) (some b) = same a b

  same_pointed_sound :
      (same : A → A → Bool)
      → ((a b : A) → same a b ≡ true → a ≡ b)
      → (o p : Option A) → same_pointed same o p ≡ true
      → o ≡ p
  unfolding same_pointed
  same_pointed_sound same sound none none h = refl
  same_pointed_sound same sound none (some b) h = cc
  same_pointed_sound same sound (some a) none h = cc
  same_pointed_sound same sound (some a) (some b) h = ap some (sound a b h)

  same_pointed_refl :
      (same : A → A → Bool)
      → ((a : A) → same a a ≡ true)
      → (o : Option A) → same_pointed same o o ≡ true
  unfolding same_pointed
  same_pointed_refl same r none = refl
  same_pointed_refl same r (some a) = r a

same_connection : Connection → Connection → Bool
same_connection a b =
    text_eq a.host b.host
    && a.port == b.port
    && text_eq a.database b.database
    && text_eq a.username b.username

same_tls : Tls → Tls → Bool
same_tls a b = text_eq a.mode b.mode && text_eq a.ca_file b.ca_file

same_ssh : Ssh → Ssh → Bool
same_ssh a b =
    text_eq a.host b.host && a.port == b.port && text_eq a.user b.user && text_eq a.auth b.auth

same_proxy : Proxy → Proxy → Bool
same_proxy a b =
    text_eq a.kind b.kind
    && text_eq a.host b.host
    && a.port == b.port
    && text_eq a.username b.username

same_limits : Limits → Limits → Bool
same_limits a b =
    a.query_timeout_ms == b.query_timeout_ms
    && a.max_rows == b.max_rows
    && a.max_result_bytes == b.max_result_bytes

same_transport : Transport → Transport → Bool
same_transport a b =
    same_tls a.tls b.tls
    && same_pointed same_ssh a.ssh b.ssh
    && same_pointed same_proxy a.proxy b.proxy

-- The fields, and what the pointers among them point to.
unfoldable pub same_profile : Profile → Profile → Bool
unfolding same_connection same_transport same_limits same_tls same_ssh same_proxy
same_profile a b =
    text_eq a.id b.id
    && text_eq a.alias b.alias
    && text_eq a.driver b.driver
    && same_connection a.connection b.connection
    && text_eq a.credential_ref b.credential_ref
    && same_transport a.transport b.transport
    && same_pointed same_limits a.limits b.limits

same_connection_sound : (a b : Connection) → same_connection a b ≡ true → a ≡ b
unfolding same_connection
same_connection_sound a b h =
    let e : a.host ≡ b.host = ground (arith, text_eq_iff a.host b.host) in
    let f : a.port ≡ b.port = ground (arith, ==_iff a.port b.port) in
    let g : a.database ≡ b.database = ground (arith, text_eq_iff a.database b.database) in
    let k : a.username ≡ b.username = ground (arith, text_eq_iff a.username b.username) in
    λ i. record { host = e i; port = f i; database = g i; username = k i }

same_tls_sound : (a b : Tls) → same_tls a b ≡ true → a ≡ b
unfolding same_tls
same_tls_sound a b h =
    let e : a.mode ≡ b.mode = ground (arith, text_eq_iff a.mode b.mode) in
    let f : a.ca_file ≡ b.ca_file = ground (arith, text_eq_iff a.ca_file b.ca_file) in
    λ i. record { mode = e i; ca_file = f i }

same_ssh_sound : (a b : Ssh) → same_ssh a b ≡ true → a ≡ b
unfolding same_ssh
same_ssh_sound a b h =
    let e : a.host ≡ b.host = ground (arith, text_eq_iff a.host b.host) in
    let f : a.port ≡ b.port = ground (arith, ==_iff a.port b.port) in
    let g : a.user ≡ b.user = ground (arith, text_eq_iff a.user b.user) in
    let k : a.auth ≡ b.auth = ground (arith, text_eq_iff a.auth b.auth) in
    λ i. record { host = e i; port = f i; user = g i; auth = k i }

same_proxy_sound : (a b : Proxy) → same_proxy a b ≡ true → a ≡ b
unfolding same_proxy
same_proxy_sound a b h =
    let e : a.kind ≡ b.kind = ground (arith, text_eq_iff a.kind b.kind) in
    let f : a.host ≡ b.host = ground (arith, text_eq_iff a.host b.host) in
    let g : a.port ≡ b.port = ground (arith, ==_iff a.port b.port) in
    let k : a.username ≡ b.username = ground (arith, text_eq_iff a.username b.username) in
    λ i. record { kind = e i; host = f i; port = g i; username = k i }

same_limits_sound : (a b : Limits) → same_limits a b ≡ true → a ≡ b
unfolding same_limits
same_limits_sound a b h =
    let e : a.query_timeout_ms ≡ b.query_timeout_ms = ground arith in
    let f : a.max_rows ≡ b.max_rows = ground arith in
    let g : a.max_result_bytes ≡ b.max_result_bytes = ground arith in
    λ i. record { query_timeout_ms = e i; max_rows = f i; max_result_bytes = g i }

same_transport_sound : (a b : Transport) → same_transport a b ≡ true → a ≡ b
unfolding same_transport
same_transport_sound a b h =
    let e : a.tls ≡ b.tls = same_tls_sound a.tls b.tls (ground arith) in
    let f : a.ssh ≡ b.ssh = same_pointed_sound same_ssh same_ssh_sound a.ssh b.ssh (ground arith) in
    let g : a.proxy ≡ b.proxy =
      same_pointed_sound same_proxy same_proxy_sound a.proxy b.proxy (ground arith) in
    λ i. record { tls = e i; ssh = f i; proxy = g i }

-- Two profiles that the test finds equal are equal.
pub same_profile_sound : (a b : Profile) → same_profile a b ≡ true → a ≡ b
unfolding same_profile
same_profile_sound a b h =
    let e : a.id ≡ b.id = ground (arith, text_eq_iff a.id b.id) in
    let f : a.alias ≡ b.alias = ground (arith, text_eq_iff a.alias b.alias) in
    let g : a.driver ≡ b.driver = ground (arith, text_eq_iff a.driver b.driver) in
    let k : a.connection ≡ b.connection =
      same_connection_sound a.connection b.connection (ground arith) in
    let l : a.credential_ref ≡ b.credential_ref =
      ground (arith, text_eq_iff a.credential_ref b.credential_ref) in
    let m : a.transport ≡ b.transport =
      same_transport_sound a.transport b.transport (ground arith) in
    let n : a.limits ≡ b.limits =
      same_pointed_sound same_limits same_limits_sound a.limits b.limits (ground arith) in
    λ i. record {
      id = e i;
      alias = f i;
      driver = g i;
      connection = k i;
      credential_ref = l i;
      transport = m i;
      limits = n i;
    }

same_transport_refl : (a : Transport) → same_transport a a ≡ true
unfolding same_transport same_tls same_ssh same_proxy
same_transport_refl a =
    let ssh =
      same_pointed_refl same_ssh
        (λ s. ground (arith, text_eq_refl s.host, text_eq_refl s.user, text_eq_refl s.auth))
        a.ssh in
    let proxy =
      same_pointed_refl same_proxy
        (λ x. ground (arith, text_eq_refl x.kind, text_eq_refl x.host, text_eq_refl x.username))
        a.proxy in
    ground (arith, text_eq_refl a.tls.mode, text_eq_refl a.tls.ca_file, ssh, proxy)

-- A profile is equal to itself.
pub same_profile_refl : (a : Profile) → same_profile a a ≡ true
unfolding same_profile same_connection same_limits
same_profile_refl a =
    let limits = same_pointed_refl same_limits (λ l. ground arith) a.limits in
    ground (
      arith,
      text_eq_refl a.id,
      text_eq_refl a.alias,
      text_eq_refl a.driver,
      text_eq_refl a.connection.host,
      text_eq_refl a.connection.database,
      text_eq_refl a.connection.username,
      text_eq_refl a.credential_ref,
      same_transport_refl a.transport,
      limits,
    )

-- Two revisions that are equal as strings are equal.
pub revision_eq_sound : (r s : Revision) → revision_eq r s ≡ true → r ≡ s
unfolding revision_eq
revision_eq_sound r s h =
    let e : r.digest ≡ s.digest = ground (arith, text_eq_iff r.digest s.digest) in
    let f : r.generation ≡ s.generation = ground arith in
    λ i. record { digest = e i; generation = f i }
