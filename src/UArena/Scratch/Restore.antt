-- ===== src/UArena/Scratch/Restore.antt =====
-- src/allocators/u_arena.c, ua_scratch_begin and ua_scratch_release: what a scratch gives back.
