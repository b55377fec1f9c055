-- ===== src/Object/Info.antt =====
-- The encoding of an object's metadata fills its 66 bytes, with the label at 18 and the delegated
-- capabilities at 58.
use virtual_yubihsm.Prelude.{
  ℕ, suc, ◌+◌, ◌-◌, ◌≤◌, ◌≡◌, sym, ap, ◌∙◌, ◌++◌, length, length-append, length-replicate,
  replicate, List, [], ◌∷◌, drop, take, take-append, arith,
}
use virtual_yubihsm.Error.{ok}
use virtual_yubihsm.Capability.{IsCapabilitySet}
use virtual_yubihsm.Object.{ObjectInfo, validate, encode, label_length}

label_fits : (info : ObjectInfo) → validate info ≡ ok tt → length info.label ≤ label_length
unfolding validate
label_fits info h = ground arith

drop_more : (n : ℕ) (xs ys : List ℕ) → drop (length xs + n) (xs ++ ys) ≡ drop n ys
drop_more n [] ys = ap (λ (k : ℕ). drop k ys) (omega arith)
drop_more n (x ∷ xs) ys =
    let next : length (x ∷ xs) + n ≡ suc (length xs + n) = omega arith in
    ap (λ (k : ℕ). drop k (x ∷ (xs ++ ys))) next ∙ drop_more n xs ys

-- The padded label takes 40 bytes in front of what follows it.
drop_label :
    (info : ObjectInfo) (rest : List ℕ)
    → validate info ≡ ok tt
    → drop 40 (info.label ++ (replicate (label_length - length info.label) 0 ++ rest)) ≡ rest
drop_label info rest h =
    let zeros : List ℕ = replicate (label_length - length info.label) 0 in
    let size : length zeros ≡ label_length - length info.label =
      length-replicate {A = ℕ} (label_length - length info.label) 0 in
    let forty : length info.label + (length zeros + 0) ≡ 40 =
      omega (arith, size, label_fits info h) in
    ap (λ (n : ℕ). drop n (info.label ++ (zeros ++ rest))) (sym forty)
    ∙ drop_more (length zeros + 0) info.label (zeros ++ rest)
    ∙ drop_more 0 zeros rest

-- The encoding of valid metadata is 66 bytes, for capabilities of eight bytes each.
pub length-encode :
    (info : ObjectInfo)
    → IsCapabilitySet info.capabilities
    → IsCapabilitySet info.delegated_capabilities
    → validate info ≡ ok tt
    → length (encode info) ≡ 66
unfolding encode
length-encode info wc wd h =
    let zeros : List ℕ = replicate (label_length - length info.label) 0 in
    let size : length zeros ≡ label_length - length info.label =
      length-replicate {A = ℕ} (label_length - length info.label) 0 in
    rw
      (
        length-append info.capabilities _,
        length-append info.label _,
        length-append zeros info.delegated_capabilities,
        size,
      )
      (omega (arith, wc.eight, wd.eight, label_fits info h))

-- In the 66 bytes that valid metadata encodes to, the capabilities stand first and the delegated
-- capabilities at offset 58, for capabilities of eight bytes each.
pub encode_layout :
    (info : ObjectInfo)
    → IsCapabilitySet info.capabilities
    → IsCapabilitySet info.delegated_capabilities
    → validate info ≡ ok tt
    → (length (encode info) ≡ 66)
      × (take 8 (encode info) ≡ info.capabilities)
      × (drop 58 (encode info) ≡ info.delegated_capabilities)
unfolding encode
encode_layout info wc wd h = (
  length-encode info wc wd h,
  ap (λ (n : ℕ). take n (encode info)) (sym wc.eight) ∙ take-append info.capabilities _,
  ap (λ (n : ℕ). drop (n + 50) (encode info)) (sym wc.eight)
      ∙ drop_more 50 info.capabilities _
      ∙ drop_label info info.delegated_capabilities h,
)
