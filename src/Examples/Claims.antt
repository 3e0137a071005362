-- ===== src/Examples/Claims.antt =====
-- normalizeDescriptor on the claims of a document in two orders.
use credaryn.Base.{pos, refl, ◌≡◌, ◌∷◌, []}
use credaryn.Examples.Seal.{descriptor}
use credaryn.Base.Text.{list_eq, codes, Text}
use credaryn.Core.Document.{ClaimValue, DocumentDescriptor}
use credaryn.Core.Claims.{is_after, insert_claim, sort_claims, assign_claims, normalize_descriptor}
use credaryn.Core.Claims.Order.{exchanged, normalize_descriptor-Reordered}
use credaryn.Core.Descriptor.{set_claim}

abbrev total : Text × ClaimValue
total = (codes "total", ClaimValue.number (pos 5))

abbrev currency : Text × ClaimValue
currency = (codes "currency", ClaimValue.string (codes "EUR"))

abbrev invoice : DocumentDescriptor
invoice = record descriptor { claims = total ∷ currency ∷ [] }

normalize_run : normalize_descriptor invoice ≡ record descriptor { claims = currency ∷ total ∷ [] }
unfolding normalize_descriptor assign_claims sort_claims insert_claim is_after set_claim list_eq
normalize_run = refl

normalize_descriptor-Reordered_example :
    normalize_descriptor (record descriptor { claims = currency ∷ total ∷ [] })
    ≡ normalize_descriptor invoice
unfolding list_eq
normalize_descriptor-Reordered_example =
    normalize_descriptor-Reordered invoice (currency ∷ total ∷ []) (exchanged refl)
