-- ===== src/Frame/RoundTrip/Common.antt =====
-- How a round trip is put together: the type byte selects the case of the switch.
use nxp.Prelude.{
  ℕ, ◌≤◌, ◌<◌, ◌^◌, ◌≡◌, ◌∙◌, refl, arith, List, [], ◌∷◌, ◌++◌, some, Option, none, Bool, true,
  false, if◌then◌else◌, ltb, lt→ltb,
}
use nxp.Codec.{Parser, ◌>>=◌, pure, reject_if, get_varint, get_data, Writer, ◌>>◌, skip, put_varint}
use nxp.Codec.Laws.{
  Reads, >>-Reads, put_varint-Reads, put_type-byte, pure-Reads, get_data-Reads, Carries, >>-inv,
  Moves-trans,
}
use nxp.Varint.RoundTrip.{decode_small}
use nxp.Frame.Types.{Frame, is_stream}
use nxp.Frame.Decode.{decode, read_body, get_if}
use nxp.Frame.Encode.{put_data_if}

-- A type byte that is neither PADDING nor STREAM selects its case of the switch.
pub decode-type :
    (t : ℕ) (l : List ℕ) → t ≤ 63 → 0 < t → is_stream t ≡ false → decode (t ∷ l) ≡ read_body t l
unfolding decode get_varint
decode-type t l small pos plain = ground (arith, decode_small t l small, plain)

pub type-Reads :
    (t : ℕ) (w : Writer) (f : Frame)
    → t ≤ 63
    → 0 < t
    → is_stream t ≡ false
    → Reads (read_body t) w f
    → Reads decode (put_varint t >> w) f
unfolding Reads
type-Reads t w f small pos plain r c out c' rest fits h =
    let (o1, c1, o2, e1, e2, e) = >>-inv (put_varint t) w c h in
    let (r1, m1) = (put_varint-Reads t c o1 c1 [] fits e1) in
    let byte = put_type-byte t c o1 c1 small e1 in
    let (r2, m2) = r c1 o2 c' rest (omega arith) e2 in
    (
      rw (e, byte) (decode-type t (o2 ++ rest) small pos plain ∙ r2),
      rw e (Moves-trans c o1 c1 o2 c' m1 m2),
    )

-- A check that the value passes.
pub reject_if-Reads {ℓ} :
    {A : Type ℓ} (limit n : ℕ) (p : Parser A) (w : Writer) (a : A)
    → n ≤ limit
    → Reads p w a
    → Reads (reject_if (ltb limit n) p) w a
unfolding Reads
reject_if-Reads limit n p w a h r c out c' rest fits e =
    let (q, m) = r c out c' rest fits e in (ground (arith, q), m)

-- One more number in front.
pub varint->>-Reads {ℓ} :
    {B : Type ℓ} (n : ℕ) (k : ℕ → Parser B) (w : Writer) (b : B)
    → Reads (k n) w b
    → Reads (get_varint >>= k) (put_varint n >> w) b
varint->>-Reads n k w b r = >>-Reads get_varint (put_varint n) n k w b (put_varint-Reads n) r

-- The data of a frame whose encoder copies only where there is something to copy.
pub put_data_if-Reads :
    (src : Option (List ℕ)) (n : ℕ)
    → n < 2 ^ 63
    → Carries n src
    → Reads (get_data n) (put_data_if src n) src
unfolding put_data_if
put_data_if-Reads none n small e = rw e (unfold get_data in pure-Reads none)
put_data_if-Reads (some bytes) n small (len, pos) =
    rw (lt→ltb 0 n pos) (get_data-Reads (some bytes) n small (len, pos))

-- A number that is there or not.
pub get_if-Reads :
    (there : Bool) (n : ℕ)
    → (there ≡ false → n ≡ 0)
    → Reads (get_if there) (if there then put_varint n else skip) n
unfolding get_if
get_if-Reads true n h = put_varint-Reads n
get_if-Reads false n h = rw (h refl) (pure-Reads 0)

-- A reader whose result is mapped.
pub map-Reads {ℓ κ} :
    {A : Type ℓ} {B : Type κ} (p : Parser A) (w : Writer) (a : A) (g : A → B)
    → Reads p w a
    → Reads (p >>= λ x. pure (g x)) w (g a)
unfolding Reads
map-Reads p w a g r c out c' rest fits h = let (e, m) = r c out c' rest fits h in (rw (e, ◌>>=◌), m)

-- A reader that agrees with another on every input.
pub Reads-eq {ℓ} :
    {A : Type ℓ} (p q : Parser A) (w : Writer) (a : A)
    → ((l : List ℕ) → p l ≡ q l)
    → Reads q w a
    → Reads p w a
unfolding Reads
Reads-eq p q w a same r c out c' rest fits h =
    let (e, m) = r c out c' rest fits h in (same (out ++ rest) ∙ e, m)
