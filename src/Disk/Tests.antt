-- ===== src/Disk/Tests.antt =====
-- A small drive that is busy once behind each command, and the disk on it.
use pygmali_os.Base.{
  ℕ, zero, suc, ◌^◌, ◌≤◌, ◌<◌, ◌≡◌, refl, arith, true, false, List, [], ◌∷◌, ◌++◌, ◌==◌,
  if◌then◌else◌, length, length-append, replicate,
}
use pygmali_os.Disk.Ata
use pygmali_os.Disk.Ata.{Ports, Driver, failed, is_busy, is_unready, bytes_of_words, disk_info}
use pygmali_os.Disk.Drive.{IsDrive, View, Phase, idle, reading, writing, address, stored}
use pygmali_os.Disk.Sectors.{read_sector-stuck}
use pygmali_os.Fat.Volume.{Volume, read_sector, write_sector}

record Sim : Type 0 where
  view : View
  phase : Phase
  busy : ℕ

abbrev drq : Phase → ℕ
drq idle = 0x40
drq (reading ws) = 0x48
drq (writing ws) = 0x48

abbrev settle : Phase → Phase
settle idle = idle
settle (reading []) = idle
settle (reading (w ∷ ws)) = reading (w ∷ ws)
settle (writing ws) = writing ws

abbrev sim_status : ℕ → Sim → ℕ × Sim
sim_status zero d = (drq d.phase, d)
sim_status (suc n) d = (0x80, record d { busy = n })

abbrev sim_inw : Phase → Sim → ℕ × Sim
sim_inw (reading (w ∷ ws)) d = (w, record d { phase = settle (reading ws) })
sim_inw p d = (0, d)

abbrev sim_outw : ℕ → Phase → Sim → Sim
sim_outw w (writing ws) d =
    let all = ws ++ (w ∷ []) in
    if length all == 256
    then record { view = stored d.view all; phase = idle; busy = 0 }
    else record d { phase = writing all }
sim_outw w p d = d

abbrev sim_command : ℕ → Sim → Sim
sim_command x d =
    if x == 0x20
    then record d { phase = settle (reading (d.view.words (address d.view))); busy = 1 }
    else if x == 0x30
    then record d { phase = writing []; busy = 1 }
    else record d { busy = 1 }

abbrev sim : Ports Sim
sim = record {
  inb = λ port d. if port == 0x1F7 then sim_status d.busy d else (0, d);
  inw = λ port d. sim_inw d.phase d;
  outb = λ port x d.
      if port == 0x1F3
      then record d { view = record (d.view) { low = x } }
      else if port == 0x1F4
      then record d { view = record (d.view) { med = x } }
      else if port == 0x1F5
      then record d { view = record (d.view) { high = x } }
      else if port == 0x1F6
      then record d { view = record (d.view) { device = x } }
      else if port == 0x1F7
      then sim_command x d
      else d;
  outw = λ port w d. sim_outw w d.phase d;
}

abbrev state : View → Phase → ℕ → Sim
state v p n = record { view = v; phase = settle p; busy = n }

-- `Shows` of the drive: the equation with its state, and the times it is still busy.
abbrev Seen : View → Phase → ℕ → Sim → Type 0
Seen v p n d = (d ≡ state v p n) × (n ≤ 1)

take_word-Seen :
    {v : View} {ws : List ℕ} {d : Sim} (w : ℕ)
    → w < 2 ^ 16
    → length ws < 255
    → Seen v (writing ws) 0 d
    → Seen v (writing (ws ++ (w ∷ []))) 0 (sim.outw 0x1F0 w d)
take_word-Seen {v = v} {ws = ws} w l k (e, m) =
    let size = length-append ws (w ∷ []) in
    let more : (length (ws ++ (w ∷ [])) == 256) ≡ false = ground (arith, size) in
    (rw (e, more) refl, m)

free : (p : Phase) → is_busy (drq (settle p)) ≡ false
free idle = refl
free (reading []) = refl
free (reading (w ∷ ws)) = refl
free (writing ws) = refl

sim_drive : IsDrive sim 0x1F0 1
sim_drive = record {
  Shows = Seen;
  within = λ s. s.1;
  delay = λ s. s;
  status_busy = λ {v} {p} {n} {d} (e, l). rw e (refl, (refl, omega arith));
  status_free = λ {v} {p} {d} (e, l). rw e (free p, (refl, l));
  ready_reading = λ {v} {w} {ws} {d} (e, l). rw e refl;
  ready_writing = λ {v} {ws} {d} (e, l). rw e refl;
  put_count = λ s. s;
  put_low = λ x f (e, l). (rw e refl, l);
  put_med = λ x f (e, l). (rw e refl, l);
  put_high = λ x f (e, l). (rw e refl, l);
  put_device = λ x f (e, l). (rw e refl, l);
  command_read = λ {v} {d} (e, l). (1, (rw e refl, omega arith));
  give_word = λ {v} {w} {ws} {d} (e, l). rw e (refl, (refl, l));
  given = λ s. s;
  command_write = λ {v} {d} (e, l). (1, (rw e refl, omega arith));
  take_word = take_word-Seen;
  command_flush = λ {v} {d} (e, l). (1, (rw e refl, omega arith));
}

abbrev driver : Driver
driver = record {
  bus_select = 0x1F0;
  is_slave_drive = 0;
  startup_read = false;
  partition_start = 1;
  partition_end = 100;
}

abbrev zeros : List ℕ
zeros = replicate 256 0

abbrev volume : Volume
volume = record {
  partition_start = 1;
  partition_end = 100;
  startup_read = false;
  sectors_per_cluster = 1;
  reserved_sectors = 1;
  num_of_fats = 1;
  sectors_per_fat = 1;
  root_cluster = 2;
  first_data_sector = 3;
  sectors = λ s. bytes_of_words zeros;
  memory = true;
  stale = [];
}

abbrev fresh : Sim
fresh = record {
  view = record { low = 0; med = 0; high = 0; device = 0; words = λ s. zeros };
  phase = idle;
  busy = 1;
}

abbrev sevens : List ℕ
sevens = replicate 512 7

-- A bus without a drive, on which every bit is read as one.
abbrev no_drive : Ports Unit
no_drive = record {
  inb = λ port d. (0xFF, d);
  inw = λ port d. (0xFFFF, d);
  outb = λ port x d. d;
  outw = λ port w d. d;
}

read_sector-stuck_example :
    ((d' : Unit) × (Ata.read_sector no_drive driver 5 zeros tt ≡ (failed, zeros, d')))
    × ((Ata.write_sector no_drive driver true 5 sevens tt).0 ≡ failed)
    × ((disk_info no_drive driver 1 tt).0 ≡ ([], 1))
read_sector-stuck_example = read_sector-stuck no_drive driver (λ d. refl) true 5 1 zeros sevens tt
