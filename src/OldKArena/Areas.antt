-- ===== src/OldKArena/Areas.antt =====
-- src/modules/oldkarena/okarena.c: what a command on one memory area does to the others.
