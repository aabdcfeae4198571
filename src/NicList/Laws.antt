-- ===== src/NicList/Laws.antt =====
-- The kinds of interfaces, and the lists of one kind.
use mini_wireshark.Base.{
  ℕ, ◌<◌, ◌≡◌, ◌≢◌, refl, List, [], ◌∷◌, Option, none, some, arith, ◌==◌, if◌then◌else◌,
}
use mini_wireshark.Qt.{QString, Qt}
use mini_wireshark.NicList.{
  Device, Nic, compare_nic, accepts, add_device, device_loop, set_nic, op_any, text_or_empty,
}

-- Every interface has one of the four kinds.
compare_nic_range :
    (q : Qt) (name : QString) (flags : ℕ) (description : QString)
    → (0 < compare_nic q name flags description) × (compare_nic q name flags description < op_any)
unfolding compare_nic
compare_nic_range q name flags description = ground arith

-- The rows of one kind.
unfoldable pub of_kind : ℕ → List Nic → List Nic
of_kind k [] = []
of_kind k ((name, flag) ∷ rest) =
    if flag == k then (name, flag) ∷ of_kind k rest else of_kind k rest

add_device-of_kind :
    (q : Qt) (k : ℕ) (d : Device) (name : Option QString) (rest : List Nic)
    → k ≢ op_any
    → add_device q k d name (of_kind k rest) ≡ of_kind k (add_device q op_any d name rest)
unfolding add_device accepts of_kind
add_device-of_kind q k d none rest h = refl
add_device-of_kind q k d (some name) rest h =
    ground (arith, compare_nic_range q name d.flags (text_or_empty d.description))

device_loop-of_kind :
    (q : Qt) (k : ℕ) (ds : List Device)
    → k ≢ op_any
    → device_loop q k ds ≡ of_kind k (device_loop q op_any ds)
unfolding device_loop of_kind
device_loop-of_kind q k [] h = refl
device_loop-of_kind q k (d ∷ ds) h =
    rw (device_loop-of_kind q k ds h) (add_device-of_kind q k d d.name (device_loop q op_any ds) h)

-- Asking for one kind of interfaces, not any, gives the rows of that kind in the list of all
-- interfaces, in the same order, and none if the interfaces cannot be listed, whatever the list held
-- before.
pub set_nic-of_kind :
    (q : Qt) (vec earlier : List Nic) (k : ℕ) (found : Option (List Device))
    → k ≢ op_any
    → set_nic q vec k found ≡ of_kind k (set_nic q earlier op_any found)
unfolding set_nic of_kind
set_nic-of_kind q vec earlier k none h = refl
set_nic-of_kind q vec earlier k (some devices) h = device_loop-of_kind q k devices h
