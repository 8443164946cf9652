-- ===== src/Rpc/Marshall/Header.antt =====
-- The headers of requests and replies (`req_header`, `reply_header` of rpc/marshall.h), which are
-- packed into the space before the arguments.
use ds.Common.{ℕ, ◌+◌, ◌^◌, ◌≤◌, ◌<◌, ◌≡◌, refl, ◌∙◌, [], ◌++◌, arith, Bytes}
use ds.Rpc.Marshall.{
  Marshall, Unmarshall, put_rawbyte, put_u32, get_u32, unmarshall, rpc_sz, rpc_header_sz,
}
use ds.Rpc.Marshall.Memory.{At, Writes-trans}
use ds.Rpc.Marshall.Codec.{Next, advance}
use ds.Rpc.Marshall.Basic.{bytes_u32, put_u32-Writes, get_u32-Next}

-- `req_header`: each word as its bit pattern.
pub record ReqHeader : Type 0 where
  pub xid : ℕ
  pub proc : ℕ
  pub clt_nonce : ℕ
  pub srv_nonce : ℕ
  pub xid_rep : ℕ

-- `reply_header`
pub record ReplyHeader : Type 0 where
  pub xid : ℕ
  pub ret : ℕ

-- `marshall::pack_req_header`
unfoldable pub pack_req_header : Marshall → ReqHeader → Marshall
pack_req_header m h =
    record (put_u32
      (put_u32 (put_u32 (put_u32 (put_u32 (record m { ind = rpc_sz }) h.xid) h.proc) h.clt_nonce)
        h.srv_nonce)
      h.xid_rep) { ind = m.ind }

-- `marshall::pack_reply_header`
unfoldable pub pack_reply_header : Marshall → ReplyHeader → Marshall
pack_reply_header m h = record (put_u32 (put_u32 (record m { ind = rpc_sz }) h.xid) h.ret) {
  ind = m.ind;
}

-- `unmarshall::unpack_req_header`
unfoldable pub unpack_req_header : Unmarshall → ReqHeader × Unmarshall
unpack_req_header u =
    let (xid, u1) = get_u32 (record u { ind = rpc_sz }) in
    let (proc, u2) = get_u32 u1 in
    let (clt_nonce, u3) = get_u32 u2 in
    let (srv_nonce, u4) = get_u32 u3 in
    let (xid_rep, u5) = get_u32 u4 in
    (
      record {
        xid = xid;
        proc = proc;
        clt_nonce = clt_nonce;
        srv_nonce = srv_nonce;
        xid_rep = xid_rep;
      },
      record u5 { ind = rpc_header_sz },
    )

-- `unmarshall::unpack_reply_header`
unfoldable pub unpack_reply_header : Unmarshall → ReplyHeader × Unmarshall
unpack_reply_header u =
    let (xid, u1) = get_u32 (record u { ind = rpc_sz }) in
    let (ret, u2) = get_u32 u1 in
    (record { xid = xid; ret = ret }, record u2 { ind = rpc_header_sz })

pub record FitsReq (h : ReqHeader) : Type 0 where
  pub xid : h.xid < 2 ^ 32
  pub proc : h.proc < 2 ^ 32
  pub clt_nonce : h.clt_nonce < 2 ^ 32
  pub srv_nonce : h.srv_nonce < 2 ^ 32
  pub xid_rep : h.xid_rep < 2 ^ 32

abbrev bytes_req : ReqHeader → Bytes
bytes_req h =
    bytes_u32 h.xid
    ++ (bytes_u32 h.proc
        ++ (bytes_u32 h.clt_nonce ++ (bytes_u32 h.srv_nonce ++ bytes_u32 h.xid_rep)))

put_u32-beyond : (m : Marshall) (x j : ℕ) → m.ind + 4 ≤ j → (put_u32 m x).buf j ≡ m.buf j
unfolding put_u32 put_rawbyte
put_u32-beyond m x j h = ground arith

put_u32-ind : (m : Marshall) (x : ℕ) → (put_u32 m x).ind ≡ m.ind + 4
put_u32-ind m x = (put_u32-Writes m x).moved

pack_req_header-Writes :
    (m : Marshall) (h : ReqHeader) → At (pack_req_header m h).buf 4 (bytes_req h)
unfolding pack_req_header
pack_req_header-Writes m h =
    let m0 = record m { ind = rpc_sz } in
    let m1 = put_u32 m0 h.xid in
    let m2 = put_u32 m1 h.proc in
    let m3 = put_u32 m2 h.clt_nonce in
    let m4 = put_u32 m3 h.srv_nonce in
    (Writes-trans m0 m1 _ (bytes_u32 h.xid) _ (put_u32-Writes m0 _) (
      Writes-trans m1 m2 _ (bytes_u32 h.proc) _ (put_u32-Writes m1 _) (
        Writes-trans m2 m3 _ (bytes_u32 h.clt_nonce) _ (put_u32-Writes m2 _) (
          Writes-trans m3 m4 _ (bytes_u32 h.srv_nonce) _ (put_u32-Writes m3 _)
            (put_u32-Writes m4 _))))).written

unpack_req_header-Next :
    (u : Unmarshall) (h : ReqHeader)
    → FitsReq h
    → Next (record u { ind = rpc_sz }) (bytes_req h)
    → unpack_req_header u ≡ (h, record u { ind = rpc_header_sz })
unfolding unpack_req_header
unpack_req_header-Next u h f n =
    let u0 = record u { ind = rpc_sz } in
    let (e1, n1) = get_u32-Next u0 h.xid _ f.xid n in
    let (e2, n2) = get_u32-Next (advance u0 4) h.proc _ f.proc n1 in
    let (e3, n3) = get_u32-Next _ h.clt_nonce _ f.clt_nonce n2 in
    let (e4, n4) = get_u32-Next _ h.srv_nonce _ f.srv_nonce n3 in
    let (e5, n5) = get_u32-Next _ h.xid_rep [] f.xid_rep n4 in rw (e1, e2, e3, e4, e5)

pack_req_header-beyond :
    (m : Marshall) (h : ReqHeader) (j : ℕ)
    → rpc_header_sz ≤ j
    → (pack_req_header m h).buf j ≡ m.buf j
unfolding pack_req_header
pack_req_header-beyond m h j le =
    let m0 = record m { ind = rpc_sz } in
    let m1 = put_u32 m0 h.xid in
    let m2 = put_u32 m1 h.proc in
    let m3 = put_u32 m2 h.clt_nonce in
    let m4 = put_u32 m3 h.srv_nonce in
    let i1 : m1.ind ≡ 8 = put_u32-ind m0 h.xid in
    let i2 : m2.ind ≡ 12 = omega (arith, put_u32-ind m1 h.proc) in
    let i3 : m3.ind ≡ 16 = omega (arith, put_u32-ind m2 h.clt_nonce) in
    let i4 : m4.ind ≡ 20 = omega (arith, put_u32-ind m3 h.srv_nonce) in
    put_u32-beyond m4 h.xid_rep j (omega arith)
    ∙ put_u32-beyond m3 h.srv_nonce j (omega arith)
    ∙ put_u32-beyond m2 h.clt_nonce j (omega arith)
    ∙ put_u32-beyond m1 h.proc j (omega arith)
    ∙ put_u32-beyond m0 h.xid j (omega arith)

-- Packing a request header changes neither the arguments behind it nor the position, and the header
-- is read back from the buffer; the reader then stands at the first argument.
pub unpack-pack_req_header :
    (m : Marshall) (h : ReqHeader) (j : ℕ)
    → FitsReq h
    → rpc_header_sz ≤ m.ind
    → m.ind < 2 ^ 31
    → rpc_header_sz ≤ j
    → let m' = pack_req_header m h in
      (m'.ind ≡ m.ind)
      × (m'.buf j ≡ m.buf j)
      × (unpack_req_header (unmarshall m'.buf m'.ind)
          ≡ (h, record (unmarshall m'.buf m'.ind) { ind = rpc_header_sz }))
unfolding unmarshall
unpack-pack_req_header m h j f room small behind = (
  unfold pack_req_header in refl,
  pack_req_header-beyond m h j behind,
  unpack_req_header-Next _ h f (record {
    there = pack_req_header-Writes m h;
    room = unfold pack_req_header in omega arith;
    small = unfold pack_req_header in small;
    good = refl;
  }),
)
