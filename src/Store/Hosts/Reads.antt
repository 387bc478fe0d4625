-- ===== src/Store/Hosts/Reads.antt =====
-- Reading hosts.
use hopskip.Base.{Option, none, some, List, [], ◌∷◌, nat_eq, bytes_eq, pair_eq, ℤ, int_eq}
use hopskip.Text.{Bytes}
use hopskip.Store.Tables.{Tables, HostRow}
use hopskip.Store.Db.Keeps.{Keeps, Keeps-query, Keeps-bind, Keeps-pure, Keeps-fail}
use hopskip.Store.Hosts.{
  load_tags, load_facts, hydrate, hydrate_all, list_hosts, or_not_found, get_host, get_host_by_name,
}

module _ {P : Tables → Type 0} where
  hydrate-Keeps : (h : HostRow) → Keeps P (hydrate h)
  unfolding hydrate load_tags load_facts
  hydrate-Keeps h =
      Keeps-bind _ _ (Keeps-query _) λ tags. Keeps-bind _ _ (Keeps-query _) λ facts. Keeps-pure _

  hydrate_all-Keeps : (hs : List HostRow) → Keeps P (hydrate_all hs)
  unfolding hydrate_all
  hydrate_all-Keeps [] = Keeps-pure _
  hydrate_all-Keeps (h ∷ hs) =
      Keeps-bind _ _ (hydrate-Keeps h)
        λ host. Keeps-bind _ _ (hydrate_all-Keeps hs) λ rest. Keeps-pure _

  pub list_hosts-Keeps : Keeps P list_hosts
  unfolding list_hosts
  list_hosts-Keeps = Keeps-bind _ _ (Keeps-query _) hydrate_all-Keeps

  found-Keeps : (o : Option HostRow) → Keeps P (or_not_found o hydrate)
  found-Keeps none = Keeps-fail _
  found-Keeps (some h) = hydrate-Keeps h

  pub get_host-Keeps : (id : ℤ) → Keeps P (get_host id)
  unfolding get_host
  get_host-Keeps id = Keeps-bind _ _ (Keeps-query _) found-Keeps

  pub get_host_by_name-Keeps : (name : Bytes) → Keeps P (get_host_by_name name)
  unfolding get_host_by_name
  get_host_by_name-Keeps name = Keeps-bind _ _ (Keeps-query _) found-Keeps
