-- ===== src/Compose/Spec/Ports.antt =====
-- Texts that ParsePort of internal/docker/compose.go reads as ports.
use dockpal_agent.Base.{
  ℕ, ◌+◌, ◌-◌, ◌*◌, Bool, true, false, [], ◌∷◌, ◌++◌, ◌≡◌, refl, Option, none, some, ok, ◌==◌,
  arith, append_assoc, Bool-cases, inl, inr,
}
use dockpal_agent.Base.Bytes.{Bytes, contains_byte, split_last, within}
use dockpal_agent.Base.Bytes.Laws.{split_single, split-append}
use dockpal_agent.Compose.Spec.{
  ℤ, atoi, in_range, unsigned, digits_value, parse_port, port_parts, two_ports,
}

digits_no :
    (b acc : ℕ) (w : Bytes) (n : ℕ)
    → within 48 57 b ≡ false
    → digits_value acc w ≡ some n
    → contains_byte w b ≡ false
unfolding digits_value contains_byte
digits_no b acc [] n hb h = refl
digits_no b acc (c ∷ w) n hb h = ground (arith, digits_no b (acc * 10 + (c - 48)) w n hb)

unsigned_no :
    (b : ℕ) (w : Bytes) (n : ℕ)
    → within 48 57 b ≡ false
    → unsigned w ≡ some n
    → contains_byte w b ≡ false
unfolding unsigned
unsigned_no b [] n hb h = cc
unsigned_no b (c ∷ w) n hb h = digits_no b 0 (c ∷ w) n hb h

in_range-some :
    (minus : Bool) (o : Option ℕ) (v : ℤ) → in_range minus o ≡ some v → (n : ℕ) × (o ≡ some n)
unfolding in_range
in_range-some minus none v h = cc
in_range-some minus (some n) v h = (n, refl)

-- A number has neither a colon nor a slash in it.
atoi_no :
    (b : ℕ) (w : Bytes) (v : ℤ)
    → within 48 57 b ≡ false
    → (b == b'-') ≡ false
    → (b == b'+') ≡ false
    → atoi w ≡ some v
    → contains_byte w b ≡ false
unfolding atoi contains_byte
atoi_no b [] v hb hm hp h = cc
atoi_no b (c ∷ w) v hb hm hp h = elim (Bool-cases (c == b'-')) [
  | inl minus ↦
      let (n, e) = in_range-some true (unsigned w) v (rw minus at h) in
      ground (arith, unsigned_no b w n hb e)
  | inr m ↦ elim (Bool-cases (c == b'+')) [
    | inl plus ↦
        let (n, e) = in_range-some false (unsigned w) v (rw (m, plus) at h) in
        ground (arith, unsigned_no b w n hb e)
    | inr p ↦
        let (n, e) = in_range-some false (unsigned (c ∷ w)) v (rw (m, p) at h) in
        unfold contains_byte in unsigned_no b (c ∷ w) n hb e
  ]
]

split_last_none : (b : ℕ) (w : Bytes) → contains_byte w b ≡ false → split_last b w ≡ none
unfolding split_last contains_byte
split_last_none b [] h = refl
split_last_none b (c ∷ w) h = rw (split_last_none b w (ground arith)) (ground arith)

split_last-append :
    (b : ℕ) (w s : Bytes) → contains_byte s b ≡ false → split_last b (w ++ b ∷ s) ≡ some (w, s)
unfolding split_last
split_last-append b [] s h = rw (split_last_none b s h) (ground arith)
split_last-append b (c ∷ w) s h = rw (split_last-append b w s h) refl

module _ (host cport protocol : Bytes) (h c : ℤ) (host_is : atoi host ≡ some h)
    (cport_is : atoi cport ≡ some c) (no_slash : contains_byte protocol b'/' ≡ false) where
  -- host:container/protocol and ip:host:container/protocol are read as these two ports and this
  -- protocol, for any host and container texts that strconv.Atoi reads, whatever their sign and size,
  -- a protocol without a slash and an ip without a colon.
  pub parse_port_lem :
      (ip : Bytes)
      → contains_byte ip b':' ≡ false
      → (parse_port (host ++ (b':' ∷ (cport ++ (b'/' ∷ protocol))))
          ≡ ok (record { host_port = h; container_port = c; protocol = protocol }))
        × (parse_port (ip ++ (b':' ∷ (host ++ (b':' ∷ (cport ++ (b'/' ∷ protocol))))))
            ≡ ok (record { host_port = h; container_port = c; protocol = protocol }))
  unfolding parse_port two_ports port_parts
  parse_port_lem ip no_colon =
      let hc = atoi_no b':' host h refl refl refl host_is in
      let cc' = atoi_no b':' cport c refl refl refl cport_is in
      (
        rw
            (
              ← append_assoc host (b':' ∷ cport) (b'/' ∷ protocol),
              split_last-append b'/' (host ++ b':' ∷ cport) protocol no_slash,
              parse_port,
              split-append b':' host cport hc,
              split_single b':' cport cc',
              host_is,
              cport_is,
              two_ports,
            )
            refl,
        rw
            (
              ← append_assoc host (b':' ∷ cport) (b'/' ∷ protocol),
              ← append_assoc ip (b':' ∷ (host ++ b':' ∷ cport)) (b'/' ∷ protocol),
              split_last-append b'/' (ip ++ b':' ∷ (host ++ b':' ∷ cport)) protocol no_slash,
              parse_port,
              split-append b':' ip (host ++ b':' ∷ cport) no_colon,
              split-append b':' host cport hc,
              split_single b':' cport cc',
              host_is,
              cport_is,
              two_ports,
            )
            refl,
      )
