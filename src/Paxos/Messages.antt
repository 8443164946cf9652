-- ===== src/Paxos/Messages.antt =====
-- The Paxos messages on the wire (the operators of paxos_protocol.h). A message is read into a new
-- variable.
use ds.Common.{arith, ℕ, ◌<◌, ◌^◌, ◌≡◌, refl, ap, Bool, [], Bytes, length}
use ds.Rpc.Marshall.{
  Memory, Marshall, marshall, Unmarshall, unmarshall, put_u32, put_bool, put_string, get_u32,
  get_bool, get_string,
}
use ds.Rpc.Marshall.Codec.{Codec}
use ds.Rpc.Marshall.Basic.{u32_codec, bool_codec, string_codec}
use ds.Rpc.Marshall.Compound.{put_pair, get_pair, pair_codec, get-put}
use ds.Paxos.Proposal.{Prop}
use ds.Paxos.Acceptor.{Preparearg, Prepareres, Acceptarg, Decidearg}

unfoldable pub put_prop : Marshall → Prop → Marshall
put_prop m a = put_string (put_u32 m a.n) a.m

unfoldable pub get_prop : Unmarshall → Prop × Unmarshall
get_prop u =
    let (n, u1) = get_u32 u in let (m, u2) = get_string [] u1 in (record { n = n; m = m }, u2)

abbrev pub prop_codec : Codec Prop
unfolding put_prop get_prop put_pair get_pair
prop_codec = record {
  put = put_prop;
  get = get_prop;
  Fits = λ a. (pair_codec u32_codec string_codec).Fits (a.n, a.m);
  encode = λ a. (pair_codec u32_codec string_codec).encode (a.n, a.m);
  put_writes = λ m a f. (pair_codec u32_codec string_codec).put_writes m (a.n, a.m) f;
  get_reads = λ u a f n.
      ap (λ e. (record { n = e.0.0; m = e.0.1 }, e.1))
        ((pair_codec u32_codec string_codec).get_reads u (a.n, a.m) f n);
}

unfoldable pub put_preparearg : Marshall → Preparearg → Marshall
put_preparearg m a = put_prop (put_u32 m a.instance_) a.n

unfoldable pub get_preparearg : Unmarshall → Preparearg × Unmarshall
get_preparearg u =
    let (i, u1) = get_u32 u in let (n, u2) = get_prop u1 in (record { instance_ = i; n = n }, u2)

abbrev pub preparearg_fields : Codec (ℕ × Prop)
preparearg_fields = pair_codec u32_codec prop_codec

abbrev pub preparearg_codec : Codec Preparearg
unfolding put_preparearg get_preparearg put_pair get_pair put_prop get_prop prop_codec
preparearg_codec = record {
  put = put_preparearg;
  get = get_preparearg;
  Fits = λ a. preparearg_fields.Fits (a.instance_, a.n);
  encode = λ a. preparearg_fields.encode (a.instance_, a.n);
  put_writes = λ m a f. preparearg_fields.put_writes m (a.instance_, a.n) f;
  get_reads = λ u a f n.
      ap (λ e. (record { instance_ = e.0.0; n = e.0.1 }, e.1))
        (preparearg_fields.get_reads u (a.instance_, a.n) f n);
}

unfoldable pub put_prepareres : Marshall → Prepareres → Marshall
put_prepareres m r =
    put_string (put_prop (put_bool (put_bool m r.oldinstance) r.accept) r.n_a) r.v_a

unfoldable pub get_prepareres : Unmarshall → Prepareres × Unmarshall
get_prepareres u =
    let (o, u1) = get_bool u in
    let (a, u2) = get_bool u1 in
    let (n, u3) = get_prop u2 in
    let (v, u4) = get_string [] u3 in (record { oldinstance = o; accept = a; n_a = n; v_a = v }, u4)

abbrev pub prepareres_fields : Codec (((Bool × Bool) × Prop) × Bytes)
prepareres_fields =
    pair_codec (pair_codec (pair_codec bool_codec bool_codec) prop_codec) string_codec

abbrev pub res_fields : Prepareres → ((Bool × Bool) × Prop) × Bytes
res_fields r = (((r.oldinstance, r.accept), r.n_a), r.v_a)

abbrev pub prepareres_codec : Codec Prepareres
unfolding put_prepareres get_prepareres put_pair get_pair put_prop get_prop prop_codec
prepareres_codec = record {
  put = put_prepareres;
  get = get_prepareres;
  Fits = λ r. prepareres_fields.Fits (res_fields r);
  encode = λ r. prepareres_fields.encode (res_fields r);
  put_writes = λ m r f. prepareres_fields.put_writes m (res_fields r) f;
  get_reads = λ u r f n.
      ap
        (λ e.
          (record { oldinstance = e.0.0.0.0; accept = e.0.0.0.1; n_a = e.0.0.1; v_a = e.0.1 }, e.1))
        (prepareres_fields.get_reads u (res_fields r) f n);
}

unfoldable pub put_acceptarg : Marshall → Acceptarg → Marshall
put_acceptarg m a = put_string (put_prop (put_u32 m a.instance_) a.n) a.v

unfoldable pub get_acceptarg : Unmarshall → Acceptarg × Unmarshall
get_acceptarg u =
    let (i, u1) = get_u32 u in
    let (n, u2) = get_prop u1 in
    let (v, u3) = get_string [] u2 in (record { instance_ = i; n = n; v = v }, u3)

abbrev pub acceptarg_fields : Codec ((ℕ × Prop) × Bytes)
acceptarg_fields = pair_codec (pair_codec u32_codec prop_codec) string_codec

abbrev pub acceptarg_codec : Codec Acceptarg
unfolding put_acceptarg get_acceptarg put_pair get_pair put_prop get_prop prop_codec
acceptarg_codec = record {
  put = put_acceptarg;
  get = get_acceptarg;
  Fits = λ a. acceptarg_fields.Fits ((a.instance_, a.n), a.v);
  encode = λ a. acceptarg_fields.encode ((a.instance_, a.n), a.v);
  put_writes = λ m a f. acceptarg_fields.put_writes m ((a.instance_, a.n), a.v) f;
  get_reads = λ u a f n.
      ap (λ e. (record { instance_ = e.0.0.0; n = e.0.0.1; v = e.0.1 }, e.1))
        (acceptarg_fields.get_reads u ((a.instance_, a.n), a.v) f n);
}

unfoldable pub put_decidearg : Marshall → Decidearg → Marshall
put_decidearg m a = put_string (put_u32 m a.instance_) a.v

unfoldable pub get_decidearg : Unmarshall → Decidearg × Unmarshall
get_decidearg u =
    let (i, u1) = get_u32 u in
    let (v, u2) = get_string [] u1 in (record { instance_ = i; v = v }, u2)

-- The reply to a prepare request with its addresses and value below 2 ^ 32 bytes and its number
-- below 2 ^ 32 is read back from the buffer that it was marshalled into, if that is below 2 ^ 31
-- bytes, and the reader ends where the writer did.
pub get_prepareres-put_prepareres :
    (junk : Memory) (r : Prepareres)
    → (r.n_a.n < 2 ^ 32) × (length r.n_a.m < 2 ^ 32) × (length r.v_a < 2 ^ 32)
    → (put_prepareres (marshall junk) r).ind < 2 ^ 31
    → let m = put_prepareres (marshall junk) r in
      get_prepareres (record (unmarshall m.buf m.ind) { ind = 24 })
      ≡ (r, record (unmarshall m.buf m.ind) { ind = m.ind })
unfolding prepareres_codec
get_prepareres-put_prepareres junk r (n, m, v) small =
    get-put prepareres_codec junk r _ _ (((tt, tt), (n, m)), v) (λ j h. refl) (omega arith) small

-- An accept request with its numbers below 2 ^ 32 and its address and value below 2 ^ 32 bytes is
-- read back from the buffer that it was marshalled into, if that is below 2 ^ 31 bytes, and the
-- reader ends where the writer did.
pub get_acceptarg-put_acceptarg :
    (junk : Memory) (a : Acceptarg)
    → (a.instance_ < 2 ^ 32) × (a.n.n < 2 ^ 32) × (length a.n.m < 2 ^ 32) × (length a.v < 2 ^ 32)
    → (put_acceptarg (marshall junk) a).ind < 2 ^ 31
    → let m = put_acceptarg (marshall junk) a in
      get_acceptarg (record (unmarshall m.buf m.ind) { ind = 24 })
      ≡ (a, record (unmarshall m.buf m.ind) { ind = m.ind })
unfolding acceptarg_codec
get_acceptarg-put_acceptarg junk a (i, n, m, v) small =
    get-put acceptarg_codec junk a _ _ ((i, (n, m)), v) (λ j h. refl) (omega arith) small
