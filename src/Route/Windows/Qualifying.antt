-- ===== src/Route/Windows/Qualifying.antt =====
-- route/route_windows.go: the rows that may decide, by the meaning of their fields.
use cropstun.Base.{
  ℕ, ◌+◌, ◌^◌, ◌%◌, ◌≡◌, ◌≢◌, refl, sym, ap, ◌∙◌, false, false≢true, ◌||◌, some, inl, inr,
  Bool-cases, ◌==◌, arith,
}
use cropstun.Base.Go.{ok, Result-cases}
use cropstun.Net.{Addr, addr_eq}
use cropstun.Route.Windows.{Row, IfRow, Api, candidate, with_metric, zero_tier_fake_gateway_ip}

-- A row that may decide: a default route whose gateway is not 25.255.255.254, whose interface is up
-- and neither virtual nor the loopback; `metric` is the sum of the metrics of route and interface.
pub record Qualifies (sys : Api) (row : Row) (ifrow : IfRow) (metric : ℕ) : Type 0 where
  pub all_addresses : row.prefix_length ≡ 0
  pub real_gateway : row.next_hop ≢ Addr.v4 0x19fffffe
  pub reads_interface : sys.interface row.luid ≡ ok ifrow
  pub is_up : ifrow.oper_status ≡ 1
  pub interface_metric : ℕ
  pub reads_metric : sys.ip_interface row.luid ≡ ok interface_metric
  pub not_virtual : ifrow.if_type ≢ 53
  pub not_loopback : ifrow.if_type ≢ 24
  pub sum : metric ≡ (row.metric + interface_metric) % 2 ^ 32

-- The source's tests leave a row just when it qualifies.
gateway_test : (a : Addr) → addr_eq a zero_tier_fake_gateway_ip ≡ false → a ≢ Addr.v4 0x19fffffe
gateway_test a h e = false≢true (sym h ∙ rw e refl)

test_gateway : (a : Addr) → a ≢ Addr.v4 0x19fffffe → addr_eq a zero_tier_fake_gateway_ip ≡ false
test_gateway Addr.invalid h = refl
test_gateway (Addr.v6 a) h = refl
test_gateway (Addr.v4 a) h = elim (Bool-cases (a == 0x19fffffe)) [
  | inr e ↦ e
  | inl e ↦ let same : a ≡ 0x19fffffe = ground (arith, e) in absurd (h (ap Addr.v4 same))
]

pub Qualifies-candidate :
    (sys : Api) (row : Row) (ifrow : IfRow) (metric : ℕ)
    → Qualifies sys row ifrow metric
    → candidate sys row ≡ some (ifrow, metric)
unfolding candidate
Qualifies-candidate sys row ifrow metric q =
    let open_type : (ifrow.if_type == 53 || ifrow.if_type == 24) ≡ false =
      ground (arith, q.not_virtual, q.not_loopback) in
    rw
      (
        q.all_addresses,
        test_gateway row.next_hop q.real_gateway,
        q.reads_interface,
        q.is_up,
        q.reads_metric,
        open_type,
        q.sum,
      )
      refl

-- The tests of an interface's row, with the metric of the interface.
with_metric-Qualifies :
    (sys : Api) (row : Row) (read ifrow : IfRow) (metric : ℕ)
    → row.prefix_length ≡ 0
    → row.next_hop ≢ Addr.v4 0x19fffffe
    → sys.interface row.luid ≡ ok read
    → read.oper_status ≡ 1
    → with_metric row.metric read (sys.ip_interface row.luid) ≡ some (ifrow, metric)
    → Qualifies sys row ifrow metric
with_metric-Qualifies sys row read ifrow metric a g i u h =
    elim (Result-cases (sys.ip_interface row.luid)) [
      | inr (e, m) ↦ let e2 = rw m at h in cc
      | inl (n, m) ↦ elim (Bool-cases (read.if_type == 53 || read.if_type == 24)) [
        | inl t ↦ let e2 = rw (m, t) at h in cc
        | inr t ↦
            let e2 : some (read, (row.metric + n) % 2 ^ 32) ≡ some (ifrow, metric) =
              rw (m, t) at h in
            let same : read ≡ ifrow = cc in
            let sum : (row.metric + n) % 2 ^ 32 ≡ metric = cc in
            rw⁻¹ same (record {
              all_addresses = a;
              real_gateway = g;
              reads_interface = i;
              is_up = u;
              interface_metric = n;
              reads_metric = m;
              not_virtual = ground (arith, t);
              not_loopback = ground (arith, t);
              sum = sym sum;
            })
      ]
    ]

pub candidate-Qualifies :
    (sys : Api) (row : Row) (ifrow : IfRow) (metric : ℕ)
    → candidate sys row ≡ some (ifrow, metric)
    → Qualifies sys row ifrow metric
unfolding candidate
candidate-Qualifies sys row ifrow metric h = elim (Bool-cases (row.prefix_length == 0)) [
  | inr a ↦ let e = rw (candidate, a) at h in cc
  | inl a ↦ elim (Bool-cases (addr_eq row.next_hop zero_tier_fake_gateway_ip)) [
    | inl g ↦ let e = rw (candidate, a, g) at h in cc
    | inr g ↦ elim (Result-cases (sys.interface row.luid)) [
      | inr (x, i) ↦ let e = rw (candidate, a, g, i) at h in cc
      | inl (read, i) ↦ elim (Bool-cases (read.oper_status == 1)) [
        | inr u ↦ let e = rw (candidate, a, g, i, u) at h in cc
        | inl u ↦
            with_metric-Qualifies sys row read ifrow metric (ground (arith, a))
              (gateway_test row.next_hop g) i (ground (arith, u)) (rw (candidate, a, g, i, u) at h)
      ]
    ]
  ]
]
