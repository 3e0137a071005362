-- ===== src/Paper/Cose/Message.antt =====
-- cose.ts: the message that is signed, and what it tells of the object.
use credaryn.Base.{◌∷◌, refl, [], >>=-eq-ok, arith, ok, ◌≡◌, ℤ}
use credaryn.Paper.Cose.{build_signature_input, Headers, encode_headers, entries_of, signed_message}
use credaryn.Base.Text.{codes, Bytes}
use credaryn.Paper.Cbor.{nil, bytes, text, mapping, cons, array, num, Value}
use credaryn.Base.Utf8.RoundTrip.{IsPlain}
use credaryn.Paper.Cbor.Canonical.{IsCanonical}
use credaryn.Paper.Cbor.PrefixFree.{encode_cbor-prefix_free}
use credaryn.Base.Utf8.Ascii.{ascii-IsPlain}

pub IsPlain-signature1 : IsPlain (codes "Signature1")
IsPlain-signature1 = ascii-IsPlain (codes "Signature1") refl

num_injective : (a b : ℤ) → num a ≡ num b → a ≡ b
num_injective a b h = cc

entries_of-injective : (h k : Headers) → entries_of h ≡ entries_of k → h ≡ k
unfolding entries_of
entries_of-injective [] [] e = refl
entries_of-injective [] (x ∷ k) e = absurd (ground arith)
entries_of-injective (x ∷ h) [] e = absurd (ground arith)
entries_of-injective ((l, v) ∷ h) ((m, w) ∷ k) e =
    let label : num l ≡ num m = cc in
    let value : v ≡ w = cc in
    let others : entries_of h ≡ entries_of k = cc in
    rw (num_injective l m label, value, entries_of-injective h k others) refl

abbrev message_value : Bytes → Bytes → Value
message_value pb content = array (
    cons (text (codes "Signature1")) (cons (bytes pb) (cons (bytes []) (cons (bytes content) nil))))

message_value-injective :
    (p q m n : Bytes) → message_value p m ≡ message_value q n → (p ≡ q) × (m ≡ n)
message_value-injective p q m n h = (cc, cc)

-- Two objects with canonical protected headers and the same signed message have the same protected
-- headers and the same payload.
pub signed_message-injective :
    (h k : Headers) (m n message : Bytes)
    → IsCanonical (mapping (entries_of h)) 0
    → IsCanonical (mapping (entries_of k)) 0
    → signed_message h m ≡ ok message
    → signed_message k n ≡ ok message
    → (h ≡ k) × (m ≡ n)
unfolding signed_message encode_headers build_signature_input
signed_message-injective h k m n message ch ck p q =
    let (a, p1, p2) = >>=-eq-ok (encode_headers h) _ p in
    let (b, q1, q2) = >>=-eq-ok (encode_headers k) _ q in
    let plain : IsCanonical (message_value a m) 0 = (IsPlain-signature1, (tt, (tt, (tt, tt)))) in
    let plain' : IsCanonical (message_value b n) 0 = (IsPlain-signature1, (tt, (tt, (tt, tt)))) in
    let (same, _) =
      encode_cbor-prefix_free (message_value a m) (message_value b n) message message [] [] plain
        plain' p2 q2 refl in
    let (ab, mn) = message_value-injective a b m n same in
    let (maps, _) =
      encode_cbor-prefix_free (mapping (entries_of h)) (mapping (entries_of k)) a b [] [] ch ck p1
        q1 (rw ab refl) in
    (entries_of-injective h k cc, mn)
